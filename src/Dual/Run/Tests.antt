-- ===== src/Dual/Run/Tests.antt =====
-- Runs on the small catalog: one that returns, and one whose build is of another profile.
use xpact.Prelude.{
  String, ◌≡◌, refl, false, some, List, [], ◌∷◌, map, ◌==◌, if◌then◌else◌, splitlines, strip,
  last_chars, split,
}
use xpact.Prelude.Int.{pos}
use xpact.Prelude.Outcome.{ok, err, os_error}
use xpact.Conformance.Known.{split_tabs, join_tabs}
use xpact.Conformance.Profile.{get, expectation, out_of_profile_lane}
use xpact.Conformance.Runner.{run_case}
use xpact.Conformance.Catalog.{local_uri, load_catalog}
use xpact.Dual.Comparison.{comparison_rows}
use xpact.Dual.Qualification.{validate_qualification}
use xpact.Dual.Report.{Engine}
use xpact.Dual.Build.{verify_artifact, validate_build, run_qualification, build_row, verify_sources}
use xpact.Dual.Lane.{
  State, prepare_suite, verify_case_input, manifest_paths, run_verified, run_artifacts,
  has_failures, report_of,
}
use xpact.Dual.Run.{Machine, prepare, execute, make, run_lane, main}
use xpact.Dual.Run.Final.{IsEnd, run_lane-IsEnd}
use xpact.Dual.Run.Example.{machine, builds, artifact, report}

-- The second implementation accepts the case that it should reject.
report-failed : map (λ (row : Engine). row.failed) report.engines ≡ pos 0 ∷ pos 1 ∷ []
unfolding report
report-failed = refl

statuses : List String
statuses = map (λ (state : State). state.status) (run_lane machine (some "/suite") false).written

written-statuses : statuses ≡ "running" ∷ "executing" ∷ "complete_with_failures" ∷ []
unfolding statuses run_lane prepare execute prepare_suite manifest_paths load_catalog expectation
    out_of_profile_lane split strip get local_uri build_row verify_artifact validate_build
    run_qualification validate_qualification split_tabs join_tabs verify_sources verify_case_input
    run_verified run_artifacts run_case splitlines last_chars comparison_rows has_failures report_of
written-statuses = refl

main-failures : main machine (some "/suite") false ≡ 1
unfolding main run_lane prepare execute prepare_suite manifest_paths load_catalog expectation
    out_of_profile_lane split strip get local_uri build_row verify_artifact validate_build
    run_qualification validate_qualification split_tabs join_tabs verify_sources verify_case_input
    run_verified run_artifacts run_case splitlines last_chars comparison_rows has_failures report_of
main-failures = refl

-- A build for the catalog.
abbrev misbuilt : Machine
misbuilt = record machine {
  builds = record builds {
    build_one = λ implementation assertions.
        ok ("manifest.json", record (artifact implementation assertions) { profile = "catalog" });
  };
}

main-misbuilt : main misbuilt (some "/suite") false ≡ 2
unfolding main run_lane prepare prepare_suite manifest_paths load_catalog expectation
    out_of_profile_lane split strip get local_uri build_row validate_build
main-misbuilt = refl

run_lane-IsEnd_example :
    IsEnd machine (run_lane machine (some "/suite") false) (make machine (some "/suite"))
run_lane-IsEnd_example = run_lane-IsEnd machine (some "/suite") false

-- The last write of run.json raises: the reports that were written are removed.
abbrev full : Machine
full = record machine {
  save = λ state.
      if state.status == "complete_with_failures" then err (os_error "disk full") else ok tt;
}

full-published : (run_lane full (some "/suite") false).published ≡ []
unfolding run_lane prepare execute prepare_suite manifest_paths load_catalog expectation
    out_of_profile_lane split strip get local_uri build_row verify_artifact validate_build
    run_qualification validate_qualification split_tabs join_tabs verify_sources verify_case_input
    run_verified run_artifacts run_case splitlines last_chars comparison_rows has_failures report_of
full-published = refl

-- A suite that holds the directory of the run.
main-overlapping : main machine (some "/") false ≡ 2
unfolding main run_lane
main-overlapping = refl
