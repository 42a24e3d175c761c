-- ===== src/Benchmark/Comparison/Tests.antt =====
-- Two executables that get slower with every process, on one file.
use Prim.Native.Nat.{◌/◌}
use xpact.Prelude.{
  ℕ, suc, ◌*◌, ◌≡◌, refl, String, true, Option, none, some, List, [], ◌∷◌, map, length, ltb, ◌<>◌,
  show, strip, arith, is_space,
}
use xpact.Prelude.Int.{pos}
use xpact.Prelude.Outcome.{ok, err, os_error, value_error}
use xpact.Conformance.Reports.{unique}
use xpact.Benchmark.Options.{
  Float, Options, Given, Site, positive_int, nonnegative_float, parse_args, preflight_inputs,
}
use xpact.Benchmark.Sample.{Workload, completed, World, Processes, measured, run_sample}
use xpact.Benchmark.Workloads.{prepare_workloads}
use xpact.Benchmark.Measure.{
  Ending, returns, raises, Row, doubled, sample, calibrate, sample_both, warm_up, measure,
  summary_of, compare_workload,
}
use xpact.Benchmark.Measure.Steps.{Ends}
use xpact.Benchmark.Measure.Calibrate.{IsCalibrated, calibrate-IsCalibrated}
use xpact.Benchmark.Measure.Pairs.{IsCompared, compare_workload-IsCompared}
use xpact.Benchmark.Publish.{json, tsv, Disk, staged, Faults, clear_reports, publish_reports}
use xpact.Benchmark.Publish.AllOrNothing.{disk_of}
use xpact.Benchmark.Comparison.{table, prepare, compare_all, run_comparison, main}
use xpact.Benchmark.Comparison.Final.{IsFinal, run_comparison-IsFinal}

abbrev first_of : List ℕ → ℕ
first_of [] = 0
first_of (n ∷ ns) = n

-- Whole seconds.
abbrev seconds : Float ℕ
seconds = record {
  of_nat = λ n. n;
  times = λ a b. a * b;
  divided_by = λ a b. a / b;
  less = ltb;
  median = first_of;
  is_finite = λ n. true;
  show = show;
}

abbrev third : List String → String
third [] = ""
third (a ∷ []) = ""
third (a ∷ b ∷ []) = ""
third (a ∷ b ∷ c ∷ rest) = c

abbrev slowing : Processes ℕ
slowing = record {
  execute = λ world command timeout.
      completed (pos 0) ("xpact benchmark harness parsed " <> third command <> " documents.\n") ""
        (suc (length world.ran));
  positive = λ n. ltb 0 n;
  is_alnum = λ c. true;
  dumps = λ command. "";
}

abbrev one_file : Site
one_file = record {
  resolve = λ path. path;
  same_file = λ a b. none;
  name = λ path. "a.xml";
  size = λ path. ok 2097152;
  hash = λ path. ok "00";
  write = λ path content. ok tt;
}

abbrev no_faults : Faults
no_faults = record {
  staging = λ name. staged;
  replacing = λ name. none;
  clearing = λ moment name. none;
  removing = λ name. none;
}

abbrev given_files : Given ℕ
given_files = record {
  baseline = "/a";
  candidate = "/b";
  output_dir = some "/out";
  workload = "files" ∷ [];
  xml_file = "/a.xml" ∷ [];
  iterations = none;
  file_iterations = none;
  xml_iterations = some (pos 4);
  pairs = some (pos 2);
  warmups = some (pos 1);
  min_sample_seconds = some 3;
  timeout_seconds = none;
}

abbrev files_options : Options ℕ
files_options = record {
  baseline = "/a";
  candidate = "/b";
  output_dir = "/out";
  workload = "files" ∷ [];
  xml_file = "/a.xml" ∷ [];
  iterations = 10000;
  file_iterations = 1000;
  xml_iterations = 4;
  pairs = 2;
  warmups = 1;
  min_sample_seconds = 3;
  timeout_seconds = none;
}

abbrev a_file : Workload
a_file = record {
  name = "file-1:a.xml";
  path = some "/a.xml";
  document_bytes = 2097152;
  iterations = 4;
}

abbrev no_runs : World
no_runs = record { ran = []; logs = [] }

parse_args-files : parse_args seconds (λ path. path) "/tmp" given_files ≡ ok files_options
unfolding parse_args positive_int nonnegative_float
parse_args-files = refl

positive_int-zero : positive_int (pos 0) ≡ err (value_error "must be between 1 and 2147483647")
unfolding positive_int
positive_int-zero = refl

-- The first pair of samples is too short.
rows_of : (World × Ending (xpact.Benchmark.Measure.Measured ℕ)) → List (ℕ × (String × ℕ))
rows_of (world, returns done) =
    map (λ (row : Row ℕ). (row.iterations, (row.order, row.ratio))) done.rows
rows_of (world, other) = []

compare_workload-slowing :
    rows_of (compare_workload seconds slowing files_options a_file no_runs)
    ≡ (8, ("AB", 0)) ∷ (8, ("BA", 1)) ∷ []
unfolding rows_of compare_workload calibrate warm_up measure summary_of sample_both sample
    run_sample measured doubled show strip is_space
compare_workload-slowing = refl

-- The exit code, and whether both reports are there.
outcome_of : World × (Disk × Option ℕ) → Option ℕ × (Option String × Option String)
outcome_of (world, (disk, code)) = (code, (disk.json_report, disk.tsv_report))

main-files :
    outcome_of (
      main seconds slowing one_file no_faults
        (λ report. "{}")
        "/tmp"
        given_files
        (ok tt)
        no_runs
        (disk_of none none none none))
    ≡ (
      some 0,
      (
        some "{}",
        some (
            "Workload\tPair\tOrder\tIterations\tDocumentBytes\tBaselineElapsedMs\tCandidateElapsedMs\tBaselineMiBPerSecond\tCandidateMiBPerSecond\tCandidateSpeedRatio\n"
            <> "file-1:a.xml\t1\tAB\t8\t2097152\t7000\t8000\t2\t2\t0\n"
            <> "file-1:a.xml\t2\tBA\t8\t2097152\t10000\t9000\t1\t1\t1\n"),
      ),
    )
unfolding outcome_of main parse_args positive_int nonnegative_float run_comparison preflight_inputs
    prepare prepare_workloads unique compare_all compare_workload calibrate warm_up measure
    summary_of sample_both sample run_sample measured doubled show strip is_space clear_reports
    publish_reports table
main-files = refl

-- The second report cannot replace the old one.
abbrev locked : Faults
locked = record no_faults {
  replacing = λ name. elim name [ json ↦ none | tsv ↦ some (os_error "locked") ];
}

main-locked :
    outcome_of (
      main seconds slowing one_file locked
        (λ report. "{}")
        "/tmp"
        given_files
        (ok tt)
        no_runs
        (disk_of (some "old") (some "old") none none))
    ≡ (some 1, (none, none))
unfolding outcome_of main parse_args positive_int nonnegative_float run_comparison preflight_inputs
    prepare prepare_workloads unique compare_all compare_workload calibrate warm_up measure
    summary_of sample_both sample run_sample measured doubled show strip is_space clear_reports
    publish_reports table
main-locked = refl

-- A candidate that is the report itself.
main-alias :
    outcome_of (
      main seconds slowing one_file no_faults
        (λ report. "{}")
        "/tmp"
        (record given_files { candidate = "/out/comparison.tsv" })
        (ok tt)
        no_runs
        (disk_of (some "old") (some "old") none none))
    ≡ (some 1, (some "old", some "old"))
unfolding outcome_of main parse_args positive_int nonnegative_float run_comparison preflight_inputs
main-alias = refl

calibrate-IsCalibrated_example :
    Ends
      (IsCalibrated seconds slowing files_options a_file 4 [])
      (calibrate seconds slowing files_options a_file 32 4 [] no_runs)
calibrate-IsCalibrated_example =
    calibrate-IsCalibrated seconds slowing files_options a_file no_runs (omega arith) (omega arith)

compare_workload-IsCompared_example :
    Ends
      (IsCompared seconds slowing files_options a_file [])
      (compare_workload seconds slowing files_options a_file no_runs)
compare_workload-IsCompared_example =
    compare_workload-IsCompared seconds slowing files_options a_file no_runs (omega arith)
      (omega arith)

run_comparison-IsFinal_example :
    IsFinal seconds slowing one_file no_faults
      (λ report. "{}")
      files_options
      (ok tt)
      no_runs
      (disk_of none none none none)
      (run_comparison seconds slowing one_file no_faults
        (λ report. "{}")
        files_options
        (ok tt)
        no_runs
        (disk_of none none none none))
run_comparison-IsFinal_example =
    run_comparison-IsFinal seconds slowing one_file no_faults (λ report. "{}") "/tmp" given_files
      files_options parse_args-files ((λ moment name. refl), (λ name. refl)) (ok tt) no_runs none
      none
