-- ===== src/Jenkins/Summary.antt =====
-- `_publish_summary`, `publish_summary` and `main` of scripts/jenkins_xpact_summary.py. Whether a file
-- can be written is a parameter; removing one always succeeds.
pub mod Sound
pub mod Counting
pub mod Honest
mod Tests
use Prim.Native.String
use xpact.Prelude.{
  ℕ, ◌+◌, String, Bool, true, false, not, ◌&&◌, ◌||◌, Option, none, some, List, [], ◌∷◌, ◌++◌, any,
  sum, ◌==◌, ◌<>◌, splitlines, contains, leb, if◌then◌else◌,
}
use xpact.Prelude.Int.{pos}
use xpact.Prelude.Outcome.{Outcome, ok, err, Error, value_error, message_of, ◌>>=◌, ◌>>◌, refuse}
use xpact.Dual.Report.{Report}
use xpact.Jenkins.Plots.{Profile, catalog, w3c, profile_name}
use xpact.Jenkins.Junit.{error, Test, Suite, xml_text, Counts, case_counts}
use xpact.Jenkins.Own.{Evidence, plain_suite, control_suites}
use xpact.Jenkins.Own.Full.{w3c_suite}

abbrev pub same_lane : Profile → Profile → Bool
same_lane catalog catalog = true
same_lane catalog w3c = false
same_lane w3c catalog = false
same_lane w3c w3c = true

abbrev pub repeated : List Profile → Bool
repeated [] = false
repeated (lane ∷ lanes) = any (same_lane lane) lanes || repeated lanes

-- What the campaign hands over, and where the evidence is.
pub record Handed : Type 0 where
  pub reports : Profile → Option Report
  pub states : Profile → Option String
  pub evidence : Evidence

pub record Summary : Type 0 where
  pub status : String
  pub tests : ℕ
  pub passed : ℕ
  pub failures : ℕ
  pub errors : ℕ
  pub skipped : ℕ

-- `str(error).splitlines()[0]`, which raises for an empty text.
abbrev pub first_of : List String → Outcome String
first_of [] = err (value_error "list index out of range")
first_of (line ∷ lines) = ok line

-- Suites with whether the infrastructure failed.
abbrev pub Part : Type 0
Part = List Suite × Bool

module _ (handed : Handed) where
  unfoldable pub error_suite : Profile → (context message : String) → Outcome Suite
  unfolding xml_text splitlines
  error_suite lane context message = do
    line ← first_of (splitlines message)
    ok (
        plain_suite handed.evidence lane ("xpact." <> profile_name lane <> ".infrastructure") (
          record {
            classname = "xpact." <> profile_name lane <> ".infrastructure";
            name = context;
            time_us = pos 0;
            details = record { tag = error; message = xml_text line; text = xml_text message } ∷ [];
          }
          ∷ []))

  abbrev pub state_is : Option String → String → Bool
  state_is none status = false
  state_is (some state) status = state == status

  -- The report of a lane, unless it disagrees with the state.
  abbrev pub agreed : Profile → Option Report → Outcome (Option Report × Part)
  agreed lane none = ok (none, ([], false))
  agreed lane (some report) =
      if not (state_is (handed.states lane) report.status)
        || not (contains ("complete" ∷ "complete_with_failures" ∷ []) report.status)
      then error_suite lane "campaign-evidence" "Own campaign state and completed report disagree"
        >>= (λ suite. ok (none, (suite ∷ [], true)))
      else ok (some report, ([], false))

  -- `except ... as error`: the suite of the error.
  abbrev pub or_error : Profile → String → Outcome (List Suite) → Outcome Part
  or_error lane context (ok suites) = ok (suites, false)
  or_error lane context (err raised) =
      error_suite lane context (message_of raised) >>= (λ suite. ok (suite ∷ [], true))

  abbrev pub listed : Outcome Suite → Outcome (List Suite)
  listed (err raised) = err raised
  listed (ok suite) = ok (suite ∷ [])

  abbrev pub full_catalog : Profile → Option Report → Outcome Part
  full_catalog catalog report = ok ([], false)
  full_catalog w3c report = or_error w3c "full-catalog" (listed (w3c_suite handed.evidence report))

  abbrev pub joined : Part → Part → Part
  joined (suites, failed) (more, also) = (suites ++ more, failed || also)

  unfoldable pub lane_part : Profile → Outcome Part
  unfolding error_suite control_suites w3c_suite
  lane_part lane = do
    (report, start) ← agreed lane (handed.reports lane)
    controls ← or_error lane "directed-controls" (control_suites handed.evidence lane report)
    full ← full_catalog lane report
    ok (joined start (joined controls full))

  unfoldable pub all_parts : List Profile → Outcome Part
  unfolding lane_part
  all_parts [] = ok ([], false)
  all_parts (lane ∷ lanes) = do part ← lane_part lane; more ← all_parts lanes; ok (joined part more)

abbrev pub all_counts : List Suite → Outcome (List Counts)
all_counts [] = ok []
all_counts (suite ∷ suites) = do
  counts ← case_counts suite.cases
  more ← all_counts suites
  ok (counts ∷ more)

-- A suite with the counts of its cases, as it is written.
abbrev pub stamped : List Suite → List Counts → List Suite
stamped [] counts = []
stamped (suite ∷ suites) [] = []
stamped (suite ∷ suites) (c ∷ counts) =
    record suite {
      tests = pos c.tests;
      failures = pos c.failures;
      errors = pos c.errors;
      skipped = pos c.skipped;
      time_us = c.time_us;
    }
    ∷ stamped suites counts

unfoldable pub summarise : Bool → List Counts → Summary
summarise infrastructure counts =
    let failures = sum (λ (c : Counts). c.failures) counts in
    let errors = sum (λ (c : Counts). c.errors) counts in
    record {
      status =
          if infrastructure
          then "failed"
          else if leb 1 failures || leb 1 errors
          then "complete_with_failures"
          else "complete";
      tests = sum (λ (c : Counts). c.tests) counts;
      passed = sum (λ (c : Counts). c.passed) counts;
      failures = failures;
      errors = errors;
      skipped = sum (λ (c : Counts). c.skipped) counts;
    }

-- The two files, and how the publication ended.
pub record Published : Type 0 where
  pub junit : Option (List Suite)
  pub summary : Option Summary
  pub outcome : Outcome Summary

abbrev pub cleared : Error → Published
cleared raised = record { junit = none; summary = none; outcome = err raised }

module _ (handed : Handed) (write_junit write_summary : Outcome (Unit {0})) where
  unfoldable pub collect : List Profile → Outcome (List Suite × Summary)
  unfolding all_parts case_counts summarise
  collect selected = do
    refuse (not (any (λ lane. true) selected) || repeated selected)
        (value_error "Select catalog and/or W3C exactly once")
    (suites, infrastructure) ← all_parts handed selected
    counts ← all_counts suites
    ok (stamped suites counts, summarise infrastructure counts)

  -- Both files, or an exception after which neither is left.
  abbrev pub written :
      Outcome (Unit {0}) → Outcome (Unit {0}) → Outcome (List Suite × Summary) → Published
  written first second (err raised) = cleared raised
  written (err raised) second (ok (suites, summary)) = cleared raised
  written (ok done) (err raised) (ok (suites, summary)) = cleared raised
  written (ok done) (ok also) (ok (suites, summary)) = record {
    junit = some suites;
    summary = some summary;
    outcome = ok summary;
  }

  unfoldable pub publish_summary : List Profile → Published
  unfolding collect
  publish_summary selected = written write_junit write_summary (collect selected)

  abbrev pub code_of : Outcome Summary → ℕ
  code_of (err raised) = 2
  code_of (ok summary) =
      if summary.status == "complete"
      then 0
      else if summary.status == "complete_with_failures"
      then 1
      else 2

  -- The exit code for one lane.
  unfoldable pub main : Profile → ℕ
  unfolding publish_summary
  main lane = code_of (publish_summary (lane ∷ [])).outcome
