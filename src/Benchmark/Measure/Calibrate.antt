-- ===== src/Benchmark/Measure/Calibrate.antt =====
-- The calibration ends, and with a number of iterations that a signed 32-bit integer holds.
use xpact.Prelude.{
  ℕ, zero, suc, ◌*◌, ◌≤◌, ◌≡◌, refl, sym, ap, ◌∙◌, String, true, false, List, [], ◌∷◌, ◌++◌, arith,
  inl, inr, Bool-cases, ltb, nat_eq,
}
use xpact.Benchmark.Options.{Float, Options, max_iterations}
use xpact.Benchmark.Sample.{Workload, Role, baseline, candidate, Ran, World, Processes}
use xpact.Benchmark.Measure.{
  Step, ◌>>=◌, Calibration, doubled, sample, calibration_of, is_long, next_round, calibrate,
}
use xpact.Benchmark.Measure.Steps.{Ends, >>=-Ends}
use xpact.Benchmark.Measure.Trace.{runs, calibration_runs, Adds, Adds-both, sample-Adds}
use mathlib.Core.List.{append-nil}

-- The number after `rounds` doublings.
abbrev doublings : (rounds count : ℕ) → ℕ
doublings zero count = count
doublings (suc rounds) count = doublings rounds (count * 2)

doublings-le : (rounds m n : ℕ) → m ≤ n → doublings rounds m ≤ doublings rounds n
doublings-le zero m n h = h
doublings-le (suc rounds) m n h = doublings-le rounds (m * 2) (n * 2) (omega (arith, h))

doublings-ge : (rounds n : ℕ) → n ≤ doublings rounds n
doublings-ge zero n = omega arith
doublings-ge (suc rounds) n = omega (arith, doublings-ge rounds (n * 2))

doubled-bounds : (n : ℕ) → n ≤ max_iterations → (n ≤ doubled n) × (doubled n ≤ max_iterations)
unfolding doubled
doubled-bounds n h = ground (arith, h)

doubled-doublings :
    (rounds n : ℕ)
    → max_iterations ≤ doublings rounds (n * 2)
    → max_iterations ≤ doublings rounds (doubled n)
unfolding doubled
doubled-doublings rounds n h = elim (Bool-cases (ltb max_iterations (n * 2))) [
  | inl over ↦ rw over (doublings-ge rounds max_iterations)
  | inr under ↦ rw under h
]

calibration_runs-snoc :
    {F : Type 0} (workload : String) (rows : List (Calibration F)) (row : Calibration F)
    → calibration_runs workload (rows ++ (row ∷ []))
      ≡ calibration_runs workload rows ++ runs false workload row.iterations "calibration"
calibration_runs-snoc workload [] row = refl
calibration_runs-snoc workload (first ∷ rows) row =
    ap (λ r. runs false workload first.iterations "calibration" ++ r)
      (calibration_runs-snoc workload rows row)

module _ {F : Type 0} (float : Float F) (processes : Processes F) (options : Options F)
    (workload : Workload) where
  -- Between the first number and the limit, after exactly the samples of the rows, the last of which
  -- is for it, with both samples long enough.
  abbrev pub IsCalibrated :
      (first : ℕ) (start : List Ran) → World → ℕ × List (Calibration F) → Type 0
  IsCalibrated first start world (count, rows) =
      (first ≤ count)
      × (count ≤ max_iterations)
      × Adds start (calibration_runs workload.name rows) world
      × (before : List (Calibration F)) × (a : F) × (b : F) × (rows
          ≡ before ++ (calibration_of float processes options workload count a b ∷ []))
      × (is_long float processes options workload a b ≡ true)

  next_round-Ends :
      (first count : ℕ) (start : List Ran) (a b : F) (rows : List (Calibration F))
      (again : Step (ℕ × List (Calibration F))) (world : World)
      → first ≤ count
      → count ≤ max_iterations
      → Adds start
          (calibration_runs workload.name
            (rows ++ (calibration_of float processes options workload count a b ∷ [])))
          world
      → (nat_eq count max_iterations ≡ false → Ends (IsCalibrated first start) (again world))
      → Ends (IsCalibrated first start) (
          next_round float processes options workload count a b
            (rows ++ (calibration_of float processes options workload count a b ∷ []))
            again
            world)
  next_round-Ends first count start a b rows again world low high added h =
      elim (Bool-cases (is_long float processes options workload a b)) [
        | inl long ↦ rw long (low, high, added, rows, a, b, refl, long)
        | inr short ↦ rw short (elim (Bool-cases (nat_eq count max_iterations)) [
          | inl reached ↦ rw reached tt
          | inr below ↦ rw below (h below)
        ])
      ]

  -- One round, with what is done after it.
  round-Ends :
      (first count : ℕ) (start : List Ran) (rows : List (Calibration F))
      (again : List (Calibration F) → Step (ℕ × List (Calibration F))) (world : World)
      → first ≤ count
      → count ≤ max_iterations
      → Adds start (calibration_runs workload.name rows) world
      → ((after : World) (more : List (Calibration F))
          → nat_eq count max_iterations ≡ false
          → Adds start (calibration_runs workload.name more) after
          → Ends (IsCalibrated first start) (again more after))
      → Ends (IsCalibrated first start) (
          (sample float processes options workload count baseline "calibration" >>= (λ a.
              sample float processes options workload count candidate "calibration" >>= (λ b.
                let more =
                  rows ++ (calibration_of float processes options workload count a b ∷ []) in
                next_round float processes options workload count a b more (again more))))
            world)
  round-Ends first count start rows again world low high added h =
      let sample_a : Step F =
        sample float processes options workload count baseline "calibration" in
      let sample_b : Step F =
        sample float processes options workload count candidate "calibration" in
      let rest : F → F → Step (ℕ × List (Calibration F)) = (λ a b.
        let more = rows ++ (calibration_of float processes options workload count a b ∷ []) in
        next_round float processes options workload count a b more (again more)) in
      let ran_a = ran_of baseline count in
      let ran_b = ran_of candidate count in
      >>=-Ends (λ mid a. Adds world.ran ran_a mid) (IsCalibrated first start) sample_a
        (λ a. sample_b >>= rest a) world
        (sample-Adds float processes options workload count baseline "calibration" world)
        (λ mid a ran_first.
          >>=-Ends (λ after b. Adds mid.ran ran_b after) (IsCalibrated first start) sample_b
            (rest a) mid
            (sample-Adds float processes options workload count candidate "calibration" mid)
            (λ after b ran_second.
              let row = calibration_of float processes options workload count a b in
              let both =
                Adds-both start (calibration_runs workload.name rows) (ran_a ++ ran_b) world after
                  added (Adds-both world.ran ran_a ran_b mid after ran_first ran_second) in
              let all =
                both ∙ ap (λ r. start ++ r) (sym (calibration_runs-snoc workload.name rows row)) in
              next_round-Ends first count start a b rows (again (rows ++ (row ∷ []))) after low high
                all (λ below. h after (rows ++ (row ∷ [])) below all)))
    where
      ran_of : Role → ℕ → List Ran
      ran_of role count =
          record { role = role; count = count; workload = workload.name; phase = "calibration" }
          ∷ []

  calibrate-Ends :
      (rounds first count : ℕ) (start : List Ran) (rows : List (Calibration F)) (world : World)
      → first ≤ count
      → count ≤ max_iterations
      → max_iterations ≤ doublings rounds count
      → Adds start (calibration_runs workload.name rows) world
      → Ends
          (IsCalibrated first start)
          (calibrate float processes options workload (suc rounds) count rows world)
  unfolding calibrate
  calibrate-Ends zero first count start rows world low high enough added =
      round-Ends first count start rows
        (calibrate float processes options workload 0 (doubled count)) world low high added
        (λ after more below run. absurd (ground (arith, high, enough, below)))
  calibrate-Ends (suc rounds) first count start rows world low high enough added =
      let bounds = doubled-bounds count high in
      round-Ends first count start rows
        (calibrate float processes options workload (suc rounds) (doubled count)) world low high
        added
        (λ after more below run.
          calibrate-Ends rounds first (doubled count) start more after
            (omega (arith, low, bounds.0)) bounds.1 (doubled-doublings rounds count enough) run)

-- 31 doublings take 1 past the limit.
enough_rounds : (count : ℕ) → 1 ≤ count → max_iterations ≤ doublings 31 count
enough_rounds count h = omega (arith, doublings-le 31 1 count h)

module _ {F : Type 0} (float : Float F) (processes : Processes F) (options : Options F)
    (workload : Workload) where
  -- From any number of iterations that `positive_int` allows, and whatever the processes do, 32
  -- rounds are enough for the calibration: it raises, or returns a number of iterations between the
  -- first one and 2147483647, after exactly the samples of its rows, baseline and candidate for each;
  -- the last row is for that number, and both of its samples took the minimum time.
  pub calibrate-IsCalibrated :
      (world : World)
      → 1 ≤ workload.iterations
      → workload.iterations ≤ max_iterations
      → Ends
          (IsCalibrated float processes options workload workload.iterations world.ran)
          (calibrate float processes options workload 32 workload.iterations [] world)
  calibrate-IsCalibrated world low high =
      calibrate-Ends float processes options workload 31 workload.iterations workload.iterations
        world.ran [] world (omega arith) high (enough_rounds workload.iterations low)
        (sym (append-nil world.ran))
