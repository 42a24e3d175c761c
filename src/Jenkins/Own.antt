-- ===== src/Jenkins/Own.antt =====
-- The evidence of the implementation's own tests in scripts/jenkins_xpact_summary.py: `_own_controls`,
-- `_verify_builds` and `_control_suites`. A `SummaryError` is a `ValueError`.
pub mod Full
use xpact.Prelude.{
  bool_eq, ℕ, ◌+◌, String, Bool, false, not, ◌&&◌, ◌||◌, Option, none, some, List, [], ◌∷◌, map,
  any, keep, length, ◌==◌, ◌<>◌, starts_with, contains, nat_eq, if◌then◌else◌,
}
use xpact.Prelude.Int.{ℤ, pos, is_nat}
use xpact.Prelude.Outcome.{Outcome, ok, err, value_error, key_error, ◌>>=◌, ◌>>◌, refuse}
use xpact.Dual.Qualification.{Control}
use xpact.Dual.Report.{Artifact, BuildRow, Report}
use xpact.Dual.Lane.{has_error}
use xpact.Jenkins.Plots.{
  Profile, profile_name, is_catalog, is_hex, same_names, expected_controls, expected_status,
}
use xpact.Jenkins.Junit.{failure, error, Test, Suite, xml_text, Counts, case_counts}

-- A run.json without a report.
pub record RunState : Type 0 where
  pub status : String
  pub error : String
  pub comparison_arguments : Bool
  pub builds : List BuildRow

-- What is read of a lane: run.json, manifests, hashes, the sources if they are there, and JUnit.
pub record Evidence : Type 0 where
  pub run_json : Profile → Outcome RunState
  pub manifest : String → Outcome Artifact
  pub hash : String → Outcome String
  pub fingerprint : Profile → Option (Outcome String)
  pub junit : Outcome (List Suite)

abbrev pub catalog_core_gate : String
catalog_core_gate = "Catalog correctness/build gate failed; see per-build errors in run.json"

unfoldable pub own_controls : List BuildRow → Outcome (List BuildRow)
own_controls rows = do
  let own = keep (λ row. row.implementation == "xpact") rows
  refuse
      (not (nat_eq (length own) 2)
        || not (any (λ row. row.assertions) own && any (λ row. not row.assertions) own))
      (value_error "Own directed controls must cover assertions on and off exactly once")
  ok own

module _ (evidence : Evidence) (lane : Profile) where
  abbrev pub foreign_build : Artifact → Bool → Bool
  foreign_build artifact assertions =
      not (artifact.status == "verified")
      || (not (artifact.implementation == "xpact")
          || (not (artifact.profile == profile_name lane)
              || (not (
                    artifact.configuration == (
                      if assertions
                      then "finalized/assertions-on/msvc-x64"
                      else "finalized/assertions-off/msvc-x64"))
                  || (not (artifact.mode == "finalized")
                      || not (bool_eq artifact.assertions assertions)))))

  abbrev pub manifest_of : Option String → Outcome Artifact
  manifest_of none = err (key_error "manifest")
  manifest_of (some path) = evidence.manifest path

  abbrev pub verify_build : BuildRow → Outcome Artifact
  verify_build row = do
    artifact ← manifest_of row.manifest
    refuse (foreign_build artifact row.assertions)
        (value_error "Own directed-control build identity/configuration is not verified")
    sha256 ← evidence.hash artifact.executable
    refuse
        (not (sha256 == artifact.executable_sha256)
          || (not (is_hex 64 artifact.build_inputs_sha256) || not (is_hex 40 artifact.revision)))
        (value_error "Own build bytes or identity changed after verification")
    ok artifact

  abbrev pub verify_each : List BuildRow → Outcome (List Artifact)
  verify_each [] = ok []
  verify_each (row ∷ rows) = do
    artifact ← verify_build row
    artifacts ← verify_each rows
    ok (artifact ∷ artifacts)

  -- The sources, if their repository is given.
  abbrev pub unchanged : Option (Outcome String) → String → Outcome (Unit {0})
  unchanged none inputs = ok tt
  unchanged (some fingerprint) inputs = do
    now ← fingerprint
    refuse (not (now == inputs))
        (value_error "Own source inputs changed after directed-control execution")

  abbrev pub same_sources : List Artifact → Outcome (Unit {0})
  same_sources (first ∷ second ∷ rest) = do
    refuse (not (first.build_inputs_sha256 == second.build_inputs_sha256))
        (value_error "Own assertion configurations use different source snapshots")
    refuse
        (not (first.revision == second.revision)
          || not (first.source_sha256 == second.source_sha256))
        (value_error "Own assertion configurations use different source identities")
    unchanged (evidence.fingerprint lane) first.build_inputs_sha256
  same_sources other = err (value_error "list index out of range")

  unfoldable pub verify_builds : List BuildRow → Outcome (Unit {0})
  unfolding is_hex
  verify_builds rows = do artifacts ← verify_each rows; same_sources artifacts

  abbrev pub mode_of : Bool → String
  mode_of assertions = if assertions then "on" else "off"

  abbrev pub control_test : String → Control → Test
  control_test mode case = record {
    classname = "xpact." <> profile_name lane <> ".controls";
    name = "assertions-" <> mode <> "/" <> case.case_id;
    time_us = pos 0;
    details =
        if case.status == "FAIL"
        then record {
          tag = failure;
          message = "Own directed control failed";
          text = xml_text case.detail;
        }
          ∷ []
        else [];
  }

  abbrev pub control_tests : String → List Control → Outcome (List Test)
  control_tests mode [] = ok []
  control_tests mode (case ∷ cases) = do
    refuse (not (contains ("PASS" ∷ "FAIL" ∷ []) case.status))
        (value_error "Own directed control has an invalid outcome")
    tests ← control_tests mode cases
    ok (control_test mode case ∷ tests)

  abbrev pub plain_suite : String → List Test → Suite
  plain_suite name cases = record {
    name = name;
    tests = pos 0;
    failures = pos 0;
    errors = pos 0;
    skipped = pos 0;
    time_us = 0;
    nested = false;
    cases = cases;
  }

  abbrev pub process_test : String → String → Test
  process_test mode text = record {
    classname = "xpact." <> profile_name lane <> ".controls";
    name = "assertions-" <> mode <> "/control-process";
    time_us = pos 0;
    details =
        record {
          tag = error;
          message = "Own directed control process failed";
          text = xml_text text;
        }
        ∷ [];
  }

  abbrev pub text_of_error : Option String → String
  text_of_error none = ""
  text_of_error (some text) = text

  unfoldable pub control_suite : BuildRow → Outcome Suite
  unfolding xml_text
  control_suite row = do
    let mode = mode_of row.assertions
    let name = "xpact." <> profile_name lane <> ".controls.assertions-" <> mode
    let names = map (λ (c : Control). c.case_id) row.cases
    if has_error row.qualification_error
        then ok (plain_suite name (process_test mode (text_of_error row.qualification_error) ∷ []))
        else (refuse
              (not (nat_eq (length names) (length (expected_controls lane)))
                || not (same_names names (expected_controls lane)))
              (value_error (
                "Own "
                <> profile_name lane
                <> " directed-control case matrix is incomplete or duplicated"))
            >> (control_tests mode row.cases >>= (λ tests. ok (plain_suite name tests))))

  abbrev pub suites_of : List BuildRow → Outcome (List Suite)
  suites_of [] = ok []
  suites_of (row ∷ rows) = do
    suite ← control_suite row
    suites ← suites_of rows
    ok (suite ∷ suites)

  -- The rows of the report, or those of a catalog run that only the other implementation failed.
  abbrev pub rows_of : Option Report → Outcome (List BuildRow)
  rows_of (some report) = ok report.qualification
  rows_of none = do
    state ← evidence.run_json lane
    refuse
        (not (is_catalog lane)
          || (not (state.status == "failed")
              || (not (state.error == catalog_core_gate)
                  || (state.comparison_arguments
                      || not (
                          any (λ row. row.implementation == "xpact-core" && row.status == "failed")
                            state.builds)))))
        (value_error (
          "Own validation cannot be established from the incomplete "
          <> profile_name lane
          <> " lane"))
    ok state.builds

  unfoldable pub control_suites : Option Report → Outcome (List Suite)
  unfolding own_controls verify_builds control_suite
  control_suites report = do
    rows ← rows_of report
    own ← own_controls rows
    refuse (any (λ row. not (row.status == expected_status lane)) own) (
        value_error ("Own " <> profile_name lane <> " build or directed controls did not complete"))
    verify_builds own
    suites_of own
