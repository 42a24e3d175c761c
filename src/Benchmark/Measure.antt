-- ===== src/Benchmark/Measure.antt =====
-- The loop over one workload in `run_comparison` of scripts/compare_eiffel_benchmarks.py: the
-- calibration of the number of iterations, the warm-up and the pairs. A step changes the world and
-- returns, raises or has no rounds left.
pub mod Steps
pub mod Trace
pub mod Calibrate
pub mod Pairs
use Prim.Native.Nat.{◌%◌}
use Prim.Native.String
use xpact.Prelude.{
  ℕ, zero, suc, ◌+◌, ◌*◌, ◌⊎◌, inl, inr, String, Bool, true, false, not, Option, none, some, List,
  [], ◌∷◌, ◌++◌, map, ◌<>◌, length, show, nat_eq, ltb, if◌then◌else◌,
}
use xpact.Prelude.Outcome.{Outcome, ok, err, Error, value_error, lane_error}
use xpact.Benchmark.Options.{Float, Options, max_iterations}
use xpact.Benchmark.Sample.{Workload, Role, baseline, candidate, World, Processes, run_sample}

pub data Ending {κ} (A : Type κ) : Type κ where
  returns : A → Ending A
  raises : Error → Ending A
  exhausted : Ending A

abbrev pub Step {κ} : Type κ → Type κ
Step A = World → World × Ending A

abbrev pub then_do {κ μ} :
    {A : Type κ} {B : Type μ} → World × Ending A → (A → Step B) → World × Ending B
then_do (world, returns a) next = next a world
then_do (world, raises error) next = (world, raises error)
then_do (world, exhausted) next = (world, exhausted)

infixl 5 ◌>>=◌
abbrev pub ◌>>=◌ {κ μ} : {A : Type κ} {B : Type μ} → Step A → (A → Step B) → Step B
◌>>=◌ m next world = then_do (m world) next

abbrev pub pure {κ} : {A : Type κ} → A → Step A
pure a world = (world, returns a)

abbrev pub raise {κ} : {A : Type κ} → Error → Step A
raise error world = (world, raises error)

abbrev pub out_of_rounds {κ} : {A : Type κ} → Step A
out_of_rounds world = (world, exhausted)

abbrev pub ending_of : {A : Type 0} → World × Outcome A → World × Ending A
ending_of (world, ok a) = (world, returns a)
ending_of (world, err error) = (world, raises error)

pub record Calibration (F : Type 0) : Type 0 where
  pub workload : String
  pub iterations : ℕ
  pub baseline_ms : F
  pub candidate_ms : F

-- A row, with the names of `FIELDS`.
pub record Row (F : Type 0) : Type 0 where
  pub workload : String
  pub pair : ℕ
  pub order : String
  pub iterations : ℕ
  pub document_bytes : ℕ
  pub baseline_ms : F
  pub candidate_ms : F
  pub baseline_mib : F
  pub candidate_mib : F
  pub ratio : F

pub record Summary (F : Type 0) : Type 0 where
  pub workload : String
  pub pairs : ℕ
  pub iterations : ℕ
  pub document_bytes : ℕ
  pub median_ratio : F
  pub min_ratio : F
  pub max_ratio : F
  pub median_baseline : F
  pub median_candidate : F
  pub min_baseline : F
  pub max_baseline : F
  pub min_candidate : F
  pub max_candidate : F

pub record Measured (F : Type 0) : Type 0 where
  pub calibration : List (Calibration F)
  pub rows : List (Row F)
  pub summary : Summary F

-- `min(count * 2, MAX_ITERATIONS)`
unfoldable pub doubled : ℕ → ℕ
doubled count = if ltb max_iterations (count * 2) then max_iterations else count * 2

abbrev pub is_even : ℕ → Bool
is_even n = nat_eq (n % 2) 0

module _ {F : Type 0} (float : Float F) (processes : Processes F) (options : Options F)
    (workload : Workload) where
  abbrev pub executable_of : Role → String
  executable_of baseline = options.baseline
  executable_of candidate = options.candidate

  unfoldable pub sample : ℕ → Role → String → Step F
  sample count role phase world = ending_of (
      run_sample processes (executable_of role) count workload role phase options.output_dir
        options.timeout_seconds world)

  abbrev pub calibration_of : ℕ → F → F → Calibration F
  calibration_of count a b = record {
    workload = workload.name;
    iterations = count;
    baseline_ms = float.times a (float.of_nat 1000);
    candidate_ms = float.times b (float.of_nat 1000);
  }

  -- `min(a, b) >= args.min_sample_seconds`
  abbrev pub is_long : F → F → Bool
  is_long a b = not (float.less (if float.less b a then b else a) options.min_sample_seconds)

  -- After both samples: the loop ends, fails or goes on with `again`.
  abbrev pub next_round :
      ℕ
      → F
      → F
      → List (Calibration F)
      → Step (ℕ × List (Calibration F))
      → Step (ℕ × List (Calibration F))
  next_round count a b more again =
      if is_long a b
      then pure (count, more)
      else if nat_eq count max_iterations
      then raise
          (lane_error "Cannot reach minimum sample time within the signed 32-bit iteration limit.")
      else again

  -- The `while` loop, with a number of rounds.
  unfoldable pub calibrate :
      (rounds count : ℕ) → List (Calibration F) → Step (ℕ × List (Calibration F))
  unfolding sample doubled
  calibrate zero count rows = out_of_rounds
  calibrate (suc rounds) count rows = do
    a ← sample count baseline "calibration"
    b ← sample count candidate "calibration"
    let more = rows ++ (calibration_of count a b ∷ [])
    next_round count a b more (calibrate rounds (doubled count) more)

  -- Both samples, in the order AB or BA.
  unfoldable pub sample_both : (reversed : Bool) (count : ℕ) (phase : String) → Step (F × F)
  unfolding sample
  sample_both false count phase = do
    a ← sample count baseline phase
    b ← sample count candidate phase
    pure (a, b)
  sample_both true count phase = do
    b ← sample count candidate phase
    a ← sample count baseline phase
    pure (a, b)

  unfoldable pub warm_up : (count warmup left : ℕ) → Step (Unit {0})
  unfolding sample_both
  warm_up count warmup zero = pure tt
  warm_up count warmup (suc left) = do
    _ ← sample_both (not (is_even warmup)) count ("warmup-" <> show (suc warmup))
    warm_up count (suc warmup) left

  abbrev pub order_of : ℕ → String
  order_of pair = if is_even pair then "BA" else "AB"

  abbrev pub row_of : (count pair : ℕ) → F × F → Row F
  row_of count pair (a, b) =
      let mib =
        float.divided_by (float.of_nat (count * workload.document_bytes)) (float.of_nat 1048576) in
      record {
        workload = workload.name;
        pair = pair;
        order = order_of pair;
        iterations = count;
        document_bytes = workload.document_bytes;
        baseline_ms = float.times a (float.of_nat 1000);
        candidate_ms = float.times b (float.of_nat 1000);
        baseline_mib = float.divided_by mib a;
        candidate_mib = float.divided_by mib b;
        ratio = float.divided_by a b;
      }

  unfoldable pub measure : (count pair left : ℕ) → Step (List (Row F))
  unfolding sample_both
  measure count pair zero = pure []
  measure count pair (suc left) = do
    elapsed ← sample_both (is_even pair) count ("pair-" <> show pair)
    more ← measure count (suc pair) left
    pure (row_of count pair elapsed ∷ more)

  abbrev pub smallest : F → List F → F
  smallest x [] = x
  smallest x (y ∷ ys) = smallest (if float.less y x then y else x) ys

  abbrev pub largest : F → List F → F
  largest x [] = x
  largest x (y ∷ ys) = largest (if float.less x y then y else x) ys

  -- The summary of the rows; `median` of no rows raises.
  unfoldable pub summary_of : ℕ → List (Row F) → Step (Summary F)
  summary_of count [] = raise (value_error "no median for empty data")
  summary_of count (row ∷ rows) = pure (record {
    workload = workload.name;
    pairs = length (row ∷ rows);
    iterations = count;
    document_bytes = workload.document_bytes;
    median_ratio = float.median (map (λ (r : Row F). r.ratio) (row ∷ rows));
    min_ratio = smallest row.ratio (map (λ (r : Row F). r.ratio) rows);
    max_ratio = largest row.ratio (map (λ (r : Row F). r.ratio) rows);
    median_baseline = float.median (map (λ (r : Row F). r.baseline_ms) (row ∷ rows));
    median_candidate = float.median (map (λ (r : Row F). r.candidate_ms) (row ∷ rows));
    min_baseline = smallest row.baseline_ms (map (λ (r : Row F). r.baseline_ms) rows);
    max_baseline = largest row.baseline_ms (map (λ (r : Row F). r.baseline_ms) rows);
    min_candidate = smallest row.candidate_ms (map (λ (r : Row F). r.candidate_ms) rows);
    max_candidate = largest row.candidate_ms (map (λ (r : Row F). r.candidate_ms) rows);
  })

  -- No minimum, no calibration; the loop has a round for each count that it can try.
  abbrev pub calibrated : Step (ℕ × List (Calibration F))
  calibrated =
      if float.less (float.of_nat 0) options.min_sample_seconds
      then calibrate 32 workload.iterations []
      else pure (workload.iterations, [])

  unfoldable pub compare_workload : Step (Measured F)
  unfolding calibrate warm_up measure summary_of
  compare_workload = do
    (count, calibration) ← calibrated
    _ ← warm_up count 0 options.warmups
    rows ← measure count 1 options.pairs
    summary ← summary_of count rows
    pure (record { calibration = calibration; rows = rows; summary = summary })
