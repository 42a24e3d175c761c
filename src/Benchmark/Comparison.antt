-- ===== src/Benchmark/Comparison.antt =====
-- `run_comparison` and `main` of scripts/compare_eiffel_benchmarks.py.
pub mod Final
mod Tests
use Prim.Native.Char.{code}
use Prim.Native.String
use xpact.Prelude.Csv.{field}
use xpact.Prelude.{
  ℕ, String, Bool, true, false, ◌||◌, Option, none, some, List, [], ◌∷◌, ◌++◌, map, ◌==◌, ◌<>◌, any,
  nat_eq, chars, text_of, show, if◌then◌else◌,
}
use xpact.Prelude.Outcome.{
  Outcome, ok, err, Error, value_error, key_error, os_error, lane_error, ◌>>=◌,
}
use xpact.Benchmark.Options.{Float, Options, Given, Site, parse_args, preflight_inputs}
use xpact.Benchmark.Sample.{Workload, World, Processes}
use xpact.Benchmark.Workloads.{prepare_workloads}
use xpact.Benchmark.Measure.{
  Ending, returns, raises, exhausted, Step, then_do, raise, Calibration, Row, Summary, Measured,
  compare_workload,
}
use xpact.Benchmark.Publish.{Disk, Faults, before, after, clear_reports, publish_reports}

-- A row of `metadata["workloads"]`.
pub record Described : Type 0 where
  pub name : String
  pub path : Option String
  pub document_bytes : ℕ
  pub initial_iterations : ℕ
  pub sha256 : Option String

-- `report["metadata"]`, without the time and the platform.
pub record Metadata (F : Type 0) : Type 0 where
  pub executables : List (String × (String × String))
  pub warmups : ℕ
  pub pairs : ℕ
  pub min_sample_seconds : F
  pub workloads : List Described

pub record Report (F : Type 0) : Type 0 where
  pub metadata : Metadata F
  pub calibration : List (Calibration F)
  pub results : List (Row F)
  pub summary : List (Summary F)

abbrev pub fields : List String → String
fields [] = "\n"
fields (text ∷ []) = field text <> "\n"
fields (text ∷ next ∷ texts) = field text <> "\t" <> fields (next ∷ texts)

abbrev pub header : List String
header =
    "Workload" ∷ "Pair" ∷ "Order" ∷ "Iterations" ∷ "DocumentBytes" ∷ "BaselineElapsedMs"
    ∷ "CandidateElapsedMs" ∷ "BaselineMiBPerSecond" ∷ "CandidateMiBPerSecond"
    ∷ "CandidateSpeedRatio" ∷ []

module _ {F : Type 0} (float : Float F) where
  abbrev pub row_fields : Row F → List String
  row_fields row =
      row.workload
      ∷ show row.pair
      ∷ row.order
      ∷ show row.iterations
      ∷ show row.document_bytes
      ∷ float.show row.baseline_ms
      ∷ float.show row.candidate_ms
      ∷ float.show row.baseline_mib
      ∷ float.show row.candidate_mib
      ∷ float.show row.ratio
      ∷ []

  abbrev pub table_rows : List (Row F) → String
  table_rows [] = ""
  table_rows (row ∷ rows) = fields (row_fields row) <> table_rows rows

  -- The text of comparison.tsv.
  unfoldable pub table : List (Row F) → String
  table rows = fields header <> table_rows rows

abbrev pub hash_of : Site → Option String → Outcome (Option String)
hash_of site none = ok none
hash_of site (some path) = do sha256 ← site.hash path; ok (some sha256)

abbrev pub describe : Site → List Workload → Outcome (List Described)
describe site [] = ok []
describe site (workload ∷ workloads) = do
  sha256 ← hash_of site workload.path
  more ← describe site workloads
  ok (
      record {
        name = workload.name;
        path = workload.path;
        document_bytes = workload.document_bytes;
        initial_iterations = workload.iterations;
        sha256 = sha256;
      }
      ∷ more)

module _ {F : Type 0} (float : Float F) (processes : Processes F) (site : Site)
    (options : Options F) where
  -- Up to the loop over the workloads.
  unfoldable pub prepare : Outcome (Metadata F × List Workload)
  prepare = do
    baseline ← site.hash options.baseline
    candidate ← site.hash options.candidate
    workloads ← prepare_workloads site options
    described ← describe site workloads
    ok (
      record {
        executables =
            ("A", (options.baseline, baseline)) ∷ ("B", (options.candidate, candidate)) ∷ [];
        warmups = options.warmups;
        pairs = options.pairs;
        min_sample_seconds = options.min_sample_seconds;
        workloads = described;
      },
      workloads,
    )

  -- The loop, with the workload's part appended to the report.
  abbrev pub extended : Report F → Measured F → Report F
  extended report measured = record report {
    calibration = report.calibration ++ measured.calibration;
    results = report.results ++ measured.rows;
    summary = report.summary ++ (measured.summary ∷ []);
  }

  unfoldable pub compare_all : Report F → List Workload → Step (Report F)
  unfolding compare_workload
  compare_all report [] world = (world, returns report)
  compare_all report (workload ∷ workloads) world =
      then_do (compare_workload float processes options workload world)
        (λ measured. compare_all (extended report measured) workloads)

  abbrev pub prepared : Outcome (Metadata F × List Workload) → Step (Report F)
  prepared (err error) = raise error
  prepared (ok (metadata, workloads)) =
      compare_all (record { metadata = metadata; calibration = []; results = []; summary = [] })
        workloads

module _ {F : Type 0} (float : Float F) (processes : Processes F) (site : Site) (faults : Faults)
    (dumps : Report F → String) (options : Options F) where
  -- `except BaseException: clear_reports(output); raise`
  abbrev pub raise_again : Error → Disk × Outcome (Unit {0}) → Disk × Ending (Report F)
  raise_again error (disk, ok done) = (disk, raises error)
  raise_again error (disk, err other) = (disk, raises other)

  abbrev pub published : Report F → Disk × Outcome (Unit {0}) → Disk × Ending (Report F)
  published report (disk, ok done) = (disk, returns report)
  published report (disk, err error) = raise_again error (clear_reports faults after disk)

  abbrev pub finish : Disk → World × Ending (Report F) → World × (Disk × Ending (Report F))
  finish disk (world, exhausted) = (world, (disk, exhausted))
  finish disk (world, raises error) = (world, raise_again error (clear_reports faults after disk))
  finish disk (world, returns report) = (
    world,
    published report (publish_reports faults (dumps report) (table float report.results) disk),
  )

  -- After the first `clear_reports`.
  abbrev pub cleared : World → Disk × Outcome (Unit {0}) → World × (Disk × Ending (Report F))
  cleared world (disk, err error) = (world, (disk, raises error))
  cleared world (disk, ok done) =
      finish disk
        (prepared float processes site options (prepare float processes site options) world)

  -- After `preflight_inputs`; `making` is what `mkdir` raises.
  abbrev pub guarded :
      Outcome (Unit {0})
      → (making : Outcome (Unit {0})) → World
      → Disk
      → World × (Disk × Ending (Report F))
  guarded (err error) making world disk = (world, (disk, raises error))
  guarded (ok done) (err error) world disk = (world, (disk, raises error))
  guarded (ok done) (ok made) world disk = cleared world (clear_reports faults before disk)

  unfoldable pub run_comparison :
      (making : Outcome (Unit {0})) → World → Disk → World × (Disk × Ending (Report F))
  unfolding preflight_inputs prepare_workloads prepare compare_all clear_reports publish_reports
      table
  run_comparison making world disk = guarded (preflight_inputs site options) making world disk

  -- What `main` returns; an exception that it does not name goes on.
  abbrev pub code_of : Ending (Report F) → Option ℕ
  code_of (returns report) = some 0
  code_of (raises (key_error key)) = none
  code_of (raises (value_error text)) = some 1
  code_of (raises (os_error text)) = some 1
  code_of (raises (lane_error text)) = some 1
  code_of exhausted = none

module _ {F : Type 0} (float : Float F) (processes : Processes F) (site : Site) (faults : Faults)
    (dumps : Report F → String) (default_dir : String) where
  abbrev pub run_parsed :
      Outcome (Options F) → (making : Outcome (Unit {0})) → World → Disk → World × (Disk × Option ℕ)
  run_parsed (err error) making world disk = (world, (disk, some 2))
  run_parsed (ok options) making world disk =
      let (last, (left, ending)) =
        run_comparison float processes site faults dumps options making world disk in
      (last, (left, code_of float processes site faults dumps options ending))

  -- The exit code; argparse exits with 2.
  unfoldable pub main :
      Given F → (making : Outcome (Unit {0})) → World → Disk → World × (Disk × Option ℕ)
  unfolding run_comparison parse_args
  main given = run_parsed (parse_args float site.resolve default_dir given)
