-- ===== src/Benchmark/Measure/Pairs.antt =====
-- The warm-up and the pairs alternate between AB and BA, and the whole of a workload's processes.
use mathlib.Core.List.{append-nil}
use xpact.Prelude.{
  ℕ, zero, suc, ◌≤◌, ◌≡◌, refl, sym, ◌∙◌, inl, inr, not, List, [], ◌∷◌, ◌++◌, ◌<>◌, show, length,
  arith, Bool-cases, if◌then◌else◌,
}
use xpact.Benchmark.Options.{Float, Options, max_iterations}
use xpact.Benchmark.Sample.{Workload, Ran, World, Processes}
use xpact.Benchmark.Measure.{
  Step, ◌>>=◌, pure, Calibration, Row, Summary, Measured, is_even, row_of, sample_both, warm_up,
  measure, summary_of, calibrate, calibrated, compare_workload,
}
use xpact.Benchmark.Measure.Steps.{Ends, >>=-Ends, Ends-weaken}
use xpact.Benchmark.Measure.Trace.{
  runs, calibration_runs, warm_up_runs, pair_runs, Adds, Adds-both, sample_both-Adds, >>=-Adds,
}
use xpact.Benchmark.Measure.Calibrate.{IsCalibrated, calibrate-IsCalibrated}

module _ {F : Type 0} (float : Float F) (processes : Processes F) (options : Options F)
    (workload : Workload) where
  warm_up-Adds :
      (count warmup left : ℕ) (world : World)
      → Ends
          (λ after t. Adds world.ran (warm_up_runs workload.name count warmup left) after)
          (warm_up float processes options workload count warmup left world)
  unfolding warm_up
  warm_up-Adds count warmup zero world = sym (append-nil world.ran)
  warm_up-Adds count warmup (suc left) world =
      >>=-Adds
        (sample_both float processes options workload (not (is_even warmup)) count
          ("warmup-" <> show (suc warmup)))
        (λ t. warm_up float processes options workload count (suc warmup) left) _ _ world
        (sample_both-Adds float processes options workload (not (is_even warmup)) count
          ("warmup-" <> show (suc warmup)) world)
        (λ mid t. warm_up-Adds count (suc warmup) left mid)

  -- The rows of pairs that are numbered from `pair` on, AB where the number is odd.
  abbrev pub IsPaired : (count pair left : ℕ) → List (Row F) → Type 0
  IsPaired count pair zero [] = Unit
  IsPaired count pair zero (row ∷ rows) = ⊥
  IsPaired count pair (suc left) [] = ⊥
  IsPaired count pair (suc left) (row ∷ rows) =
      (row.workload ≡ workload.name)
      × (row.pair ≡ pair)
      × (row.order ≡ (if is_even pair then "BA" else "AB"))
      × (row.iterations ≡ count)
      × IsPaired count (suc pair) left rows

  abbrev pub IsMeasured : (count pair left : ℕ) (start : List Ran) → World → List (Row F) → Type 0
  IsMeasured count pair left start world rows =
      Adds start (pair_runs workload.name count pair left) world × IsPaired count pair left rows

  measure-IsMeasured :
      (count pair left : ℕ) (world : World)
      → Ends
          (IsMeasured count pair left world.ran)
          (measure float processes options workload count pair left world)
  unfolding measure
  measure-IsMeasured count pair zero world = (sym (append-nil world.ran), tt)
  measure-IsMeasured count pair (suc left) world =
      let both : Step (F × F) =
        sample_both float processes options workload (is_even pair) count ("pair-" <> show pair) in
      let rest : Step (List (Row F)) =
        measure float processes options workload count (suc pair) left in
      let first = runs (is_even pair) workload.name count ("pair-" <> show pair) in
      let later = pair_runs workload.name count (suc pair) left in
      >>=-Ends (λ mid elapsed. Adds world.ran first mid)
        (IsMeasured count pair (suc left) world.ran) both
        (λ elapsed.
          rest
          >>= (λ more. pure (row_of float processes options workload count pair elapsed ∷ more)))
        world
        (sample_both-Adds float processes options workload (is_even pair) count
          ("pair-" <> show pair) world)
        (λ mid elapsed added.
          >>=-Ends (IsMeasured count (suc pair) left mid.ran)
            (IsMeasured count pair (suc left) world.ran) rest
            (λ more. pure (row_of float processes options workload count pair elapsed ∷ more)) mid
            (measure-IsMeasured count (suc pair) left mid)
            (λ after more h.
              (Adds-both world.ran first later mid after added h.0, (refl, refl, refl, refl, h.1))))

  length-IsPaired :
      (count pair left : ℕ) (rows : List (Row F))
      → IsPaired count pair left rows
      → length rows ≡ left
  length-IsPaired count pair zero [] h = refl
  length-IsPaired count pair zero (row ∷ rows) h = elim h [ ]
  length-IsPaired count pair (suc left) [] h = elim h [ ]
  length-IsPaired count pair (suc left) (row ∷ rows) h =
      omega (arith, length-IsPaired count (suc pair) left rows h.4)

  summary_of-Ends :
      (count : ℕ) (rows : List (Row F)) (world : World)
      → Ends
          (λ after summary.
            (after ≡ world) × (summary.iterations ≡ count) × (summary.pairs ≡ length rows))
          (summary_of float processes options workload count rows world)
  unfolding summary_of
  summary_of-Ends count [] world = tt
  summary_of-Ends count (row ∷ rows) world = (refl, refl, refl)

  IsReady : (start : List Ran) → World → ℕ × List (Calibration F) → Type 0
  IsReady start world (count, rows) =
      (workload.iterations ≤ count)
      × (count ≤ max_iterations)
      × Adds start (calibration_runs workload.name rows) world

  calibrated-IsReady :
      (world : World)
      → 1 ≤ workload.iterations
      → workload.iterations ≤ max_iterations
      → Ends (IsReady world.ran) (calibrated float processes options workload world)
  unfolding IsReady
  calibrated-IsReady world low high =
      elim (Bool-cases (float.less (float.of_nat 0) options.min_sample_seconds)) [
        | inl wanted ↦ rw wanted (
            Ends-weaken
              (IsCalibrated float processes options workload workload.iterations world.ran)
              (IsReady world.ran)
              (calibrate float processes options workload 32 workload.iterations [] world)
              (calibrate-IsCalibrated float processes options workload world low high)
              (λ after r h. (h.0, h.1, h.2)))
        | inr not_wanted ↦ rw not_wanted (omega arith, high, sym (append-nil world.ran))
      ]

  -- One number of iterations for the warm-up, the rows and the summary, and the processes that were
  -- run: both samples of each calibration row, then the warm-up and the pairs.
  abbrev pub IsCompared : (start : List Ran) → World → Measured F → Type 0
  IsCompared start world measured =
      (workload.iterations ≤ measured.summary.iterations)
      × (measured.summary.iterations ≤ max_iterations)
      × (measured.summary.pairs ≡ options.pairs)
      × IsPaired measured.summary.iterations 1 options.pairs measured.rows
      × (world.ran
          ≡ start
            ++ (calibration_runs workload.name measured.calibration
                ++ (warm_up_runs workload.name measured.summary.iterations 0 options.warmups
                    ++ pair_runs workload.name measured.summary.iterations 1 options.pairs)))

  -- The end of `compare_workload`, from the number of iterations on.
  after_calibration : ℕ → List (Calibration F) → Step (Measured F)
  after_calibration count calibration =
      warm_up float processes options workload count 0 options.warmups >>= (λ t.
        measure float processes options workload count 1 options.pairs >>= (λ rows.
          summary_of float processes options workload count rows >>= (λ summary.
            pure (record { calibration = calibration; rows = rows; summary = summary }))))

  after_calibration-Ends :
      (start : List Ran) (count : ℕ) (calibration : List (Calibration F)) (world : World)
      → IsReady start world (count, calibration)
      → Ends (IsCompared start) (after_calibration count calibration world)
  unfolding after_calibration IsReady
  after_calibration-Ends start count calibration world (low, high, ready) =
      let warm = warm_up_runs workload.name count 0 options.warmups in
      let paired = pair_runs workload.name count 1 options.pairs in
      let calibrating = calibration_runs workload.name calibration in
      let summarise : List (Row F) → Step (Measured F) = (λ rows.
        summary_of float processes options workload count rows >>= (λ summary.
          pure (record { calibration = calibration; rows = rows; summary = summary }))) in
      let measuring : Step (List (Row F)) =
        measure float processes options workload count 1 options.pairs in
      >>=-Ends (λ mid t. Adds world.ran warm mid) (IsCompared start)
        (warm_up float processes options workload count 0 options.warmups)
        (λ t. measuring >>= summarise) world (warm_up-Adds count 0 options.warmups world)
        (λ mid t warmed.
          >>=-Ends (IsMeasured count 1 options.pairs mid.ran) (IsCompared start) measuring summarise
            mid (measure-IsMeasured count 1 options.pairs mid)
            (λ after rows (added, numbered).
              >>=-Ends
                (λ (last : World) (summary : Summary F).
                  (last ≡ after) × (summary.iterations ≡ count) × (summary.pairs ≡ length rows))
                (IsCompared start) (summary_of float processes options workload count rows)
                (λ summary.
                  pure (record { calibration = calibration; rows = rows; summary = summary }))
                after (summary_of-Ends count rows after)
                (λ last summary (same, counted, paired_up).
                  rw (same, counted)
                    (
                      low,
                      high,
                      paired_up ∙ length-IsPaired count 1 options.pairs rows numbered,
                      numbered,
                      Adds-both start calibrating (warm ++ paired) world after ready
                          (Adds-both world.ran warm paired mid after warmed added),
                    ))))

  -- Whatever the processes do, a workload whose number of iterations `positive_int` allows is
  -- measured or raises. Measured, it has one number of iterations for the warm-up, the pairs and the
  -- summary, between the first one and 2147483647; its rows are the pairs from 1 on, AB for odd
  -- numbers and BA for even ones; and the processes that were run are both samples of each
  -- calibration row, then the warm-up, AB first, then the pairs in the order of their rows.
  pub compare_workload-IsCompared :
      (world : World)
      → 1 ≤ workload.iterations
      → workload.iterations ≤ max_iterations
      → Ends (IsCompared world.ran) (compare_workload float processes options workload world)
  unfolding compare_workload after_calibration
  compare_workload-IsCompared world low high =
      >>=-Ends (IsReady world.ran) (IsCompared world.ran)
        (calibrated float processes options workload) (λ ready. after_calibration ready.0 ready.1)
        world (calibrated-IsReady world low high)
        (λ mid ready h. after_calibration-Ends world.ran ready.0 ready.1 mid h)
