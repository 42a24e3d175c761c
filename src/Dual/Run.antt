-- ===== src/Dual/Run.antt =====
-- `run_lane`, `clear_reports` and `main` of scripts/run_dual_w3c.py. A write of run.json gives it
-- its contents or raises and leaves it; the writes of the report files are a parameter, which says
-- what is there in the end and whether one raised. The removal of files and the making of the
-- directories below the run's own always succeed.
pub mod Executed
pub mod Built
pub mod Results
pub mod Accepted
pub mod Final
pub mod Example
mod Tests
use Prim.Native.String
use xpact.Prelude.{
  ℕ, String, Bool, true, false, not, Option, none, some, List, [], ◌∷◌, ◌++◌, ◌||◌, any, keep,
  contains, length, ◌==◌, if◌then◌else◌,
}
use xpact.Prelude.Outcome.{
  Outcome, ok, err, Error, value_error, key_error, os_error, lane_error, message_of, ◌>>=◌, ◌>>◌,
  refuse,
}
use xpact.Conformance.Case.{Case, Result}
use xpact.Conformance.Catalog.{Element, Site, load_catalog}
use xpact.Dual.Comparison.{Row, comparison_rows}
use xpact.Dual.Report.{Artifact, BuildRow, Report}
use xpact.Dual.Build.{
  Moment, preparing, before_execution, after_execution, Builds, verify_artifact, build_row, entry,
  verify_sources,
}
use xpact.Dual.Lane.{
  Snapshot, same_snapshot, Suite, prepare_suite, manifest_paths, Runs, run_artifacts, verify_all,
  report_of, State, Ended,
}

-- What the run uses: its timeout and its directory, with the report files that are there before;
-- the catalog's parser, the builds with their toolchain, the suite, processes, the writes of
-- run.json and those of `publish_reports`.
pub record Machine : Type 0 where
  pub timeout_finite : Bool
  pub timeout_positive : Bool
  pub run_root : String
  pub existing : List String
  pub mkdir : Outcome (Unit {0})
  pub save : State → Outcome (Unit {0})
  pub site : Site
  pub parse : Bool → String → Outcome Element
  pub toolchain : Outcome (Unit {0})
  pub builds : Builds
  pub suite : Suite
  pub runs : Runs
  pub write_reports : Report → List String × Outcome (Unit {0})

-- `FINAL_REPORTS`, and the conformance runner's `REPORT_FILES` in their directory.
abbrev pub report_files : List String
report_files =
    "report.json" ∷ "summary.md" ∷ "comparison.tsv" ∷ "suite-manifest.json"
    ∷ "conformance/junit.xml" ∷ "conformance/results.tsv" ∷ "conformance/summary.json"
    ∷ "conformance/summary.md" ∷ []

abbrev pub clear_reports : List String → List String
clear_reports files = keep (λ file. not (contains report_files file)) files

-- The `except` of `publish_reports`.
abbrev pub swept : List String × Outcome (Unit {0}) → List String × Outcome (Unit {0})
swept (files, err error) = (clear_reports files, err error)
swept (files, ok done) = (files, ok done)

abbrev pub initial : State
initial = record { status = "running"; builds = []; catalog_cases = none; error = none }

module _ (machine : Machine) where
  -- Up to the builds.
  unfoldable pub prepare : Option String → (offline : Bool) → Outcome (Snapshot × List Case)
  unfolding prepare_suite manifest_paths
  prepare suite_dir offline = do
    suite ← prepare_suite machine.suite suite_dir offline
    before ← machine.suite.snapshot preparing
    cases ← load_catalog machine.runs.disk machine.site machine.parse suite
    refuse (not (any (λ case. case.skip_reason == "") cases))
        (lane_error "W3C catalog contains no applicable cases")
    _ ← manifest_paths machine.suite cases
    _ ← machine.toolchain
    ok (before, cases)

  -- The rows of both loops over the builds, with the artifacts of one of them.
  abbrev pub rows_with : Bool → List (BuildRow × Option Artifact)
  rows_with assertions =
      build_row machine.builds "xpact" assertions
      ∷ build_row machine.builds "xpact-core" assertions
      ∷ []

  abbrev pub all_rows : List BuildRow
  all_rows =
      (build_row machine.builds "xpact" true).0
      ∷ (build_row machine.builds "xpact-core" true).0
      ∷ (build_row machine.builds "xpact" false).0
      ∷ (build_row machine.builds "xpact-core" false).0
      ∷ []

  abbrev pub artifacts_with : Bool → List (String × Artifact)
  artifacts_with assertions =
      entry machine.builds "xpact" (build_row machine.builds "xpact" assertions).1
      ++ entry machine.builds "xpact-core" (build_row machine.builds "xpact-core" assertions).1

  -- From the running of the catalog to the report, before it is published.
  unfoldable pub execute :
      (audits artifacts : List (String × Artifact))
      → List BuildRow
      → Snapshot
      → List Case
      → Outcome Report
  unfolding run_artifacts comparison_rows verify_sources verify_artifact report_of
  execute audits artifacts qualification before cases = do
    results ← run_artifacts machine.builds machine.suite machine.runs before cases artifacts
    rows ← comparison_rows cases results
    now ← machine.suite.snapshot after_execution
    refuse (not (same_snapshot now before)) (lane_error "W3C suite bytes changed during execution")
    verify_sources machine.builds after_execution audits artifacts
    verify_all machine.builds machine.suite machine.runs after_execution artifacts
    ok (report_of cases artifacts qualification rows results)

  abbrev pub publish_reports : Report → List String × Outcome (Unit {0})
  publish_reports report = swept (machine.write_reports report)

  -- The last write of run.json; if it raises, that is what the run raises.
  abbrev pub said : List State → List String → State → Error → Outcome (Unit {0}) → Ended
  said written files state error (err other) = record {
    written = written;
    published = files;
    outcome = err other;
  }
  said written files state error (ok done) = record {
    written = written ++ (state ∷ []);
    published = files;
    outcome = err error;
  }

  -- `except BaseException`
  abbrev pub failed : List State → List String → State → Error → Ended
  failed written files state error =
      let final = record state { status = "failed"; error = some (message_of error) } in
      said written (clear_reports files) final error (machine.save final)

  -- After the reports, `state["status"] = status` is written.
  abbrev pub concluded : List State → List String → State → Report → Outcome (Unit {0}) → Ended
  concluded written files state report (err error) = failed written files state error
  concluded written files state report (ok done) = record {
    written = written ++ (state ∷ []);
    published = files;
    outcome = ok report;
  }

  abbrev pub publishing : List State → State → Report → List String × Outcome (Unit {0}) → Ended
  publishing written state report (files, err error) = failed written files state error
  publishing written state report (files, ok done) =
      let final = record state { status = report.status } in
      concluded written files final report (machine.save final)

  abbrev pub completed : List State → State → Outcome Report → Ended
  completed written state (err error) = failed written [] state error
  completed written state (ok report) = publishing written state report (publish_reports report)

  abbrev pub executing : List State → State → Snapshot → List Case → Outcome (Unit {0}) → Ended
  executing written state before cases (err error) = failed written [] state error
  executing written state before cases (ok done) =
      completed (written ++ (state ∷ [])) state
        (execute (artifacts_with true) (artifacts_with false) all_rows before cases)

  abbrev pub verified : List State → State → Snapshot → List Case → Outcome (Unit {0}) → Ended
  verified written state before cases (err error) = failed written [] state error
  verified written state before cases (ok done) =
      let running = record state { status = "executing"; catalog_cases = some (length cases) } in
      executing written running before cases (machine.save running)

  -- The gate after the builds.
  abbrev pub gate : List State → State → Snapshot → List Case → Bool → Ended
  gate written state before cases true =
      failed written [] state (lane_error "W3C build/identity gate failed; see run.json")
  gate written state before cases false =
      verified written state before cases (
        verify_sources machine.builds before_execution (artifacts_with true) (artifacts_with false))

  abbrev pub prepared : Outcome (Snapshot × List Case) → Ended
  prepared (err error) = failed (initial ∷ []) [] initial error
  prepared (ok (before, cases)) =
      gate (initial ∷ []) (record initial { builds = all_rows }) before cases
        (any (λ row. not (row.status == "executed")) all_rows)

  -- The `try` block, in a directory that is new.
  abbrev pub started : Option String → (offline : Bool) → Outcome (Unit {0}) → Ended
  started suite_dir offline (err error) = failed [] [] initial error
  started suite_dir offline (ok done) = prepared (prepare suite_dir offline)

  abbrev pub overlaps : Option String → Bool
  overlaps none = false
  overlaps (some suite_dir) =
      let supplied = machine.suite.resolve suite_dir in
      machine.runs.disk.is_relative_to machine.run_root supplied
      || machine.runs.disk.is_relative_to supplied machine.run_root

  -- What can raise before the `try` block.
  abbrev pub make : Option String → Outcome (Unit {0})
  make suite_dir = do
    refuse (not machine.timeout_finite || not machine.timeout_positive)
        (lane_error "Per-case timeout must be positive and finite")
    refuse (overlaps suite_dir)
        (lane_error "W3C inputs and run output must be separate directories")
    machine.mkdir

  abbrev pub opened : Option String → (offline : Bool) → Outcome (Unit {0}) → Ended
  opened suite_dir offline (err error) = record {
    written = [];
    published = machine.existing;
    outcome = err error;
  }
  opened suite_dir offline (ok done) = started suite_dir offline (machine.save initial)

  unfoldable pub run_lane : Option String → (offline : Bool) → Ended
  unfolding prepare execute build_row verify_sources
  run_lane suite_dir offline = opened suite_dir offline (make suite_dir)

  abbrev pub code_of : Outcome Report → ℕ
  code_of (err error) = 2
  code_of (ok report) = if report.status == "complete" then 0 else 1

  -- The exit code; each of the exceptions is one that `main` names.
  unfoldable pub main : Option String → (offline : Bool) → ℕ
  unfolding run_lane
  main suite_dir offline = code_of (run_lane suite_dir offline).outcome
