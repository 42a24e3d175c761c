-- ===== src/Jenkins/Publication/Tests.antt =====
-- The publication of a campaign whose W3C lane ran on the small catalog.
use xpact.Prelude.{
  ℕ, String, ◌≡◌, refl, true, false, Option, none, some, List, [], ◌∷◌, map, show, ◌==◌,
  if◌then◌else◌,
}
use xpact.Prelude.Outcome.{Outcome, Error, os_error}
use xpact.Dual.Run.Example.{machine, report, report_returned}
use xpact.Jenkins.Campaign.{Lane, State}
use xpact.Jenkins.Plots.{
  is_hex, validate_artifact, validate_artifacts, validate_cases, validate_row, validate_rows,
  validate_controls, count,
}
use xpact.Jenkins.Plots.W3c.{counts_of, w3c_counts, w3c_plots}
use xpact.Jenkins.Plots.Example.{whole_numbers, identified}
use xpact.Jenkins.Publication.{
  File, foreign, is_report, clear_reports, replace, write_all, all_plots, Publication,
  publish_reports,
}
use xpact.Jenkins.Publication.Exported.{IsPublished, publish_reports-IsPublished}
use xpact.Jenkins.Publication.Independent.{HasW3cPlots, only_w3c, publish_reports-run_lane}

abbrev lane_of : String → Lane
lane_of status = record {
  status = status;
  report = "report.json";
  report_sha256 = none;
  error = none;
}

abbrev state : State
state = record {
  build_id = "build-7";
  status = "failed";
  catalog = lane_of "failed";
  w3c = lane_of report.status;
  subject_summary = none;
  publication = none;
  error = none;
  cleanup_error = none;
}

-- The evidence of a lane, and the manifest of an earlier publication.
abbrev before : List (File ℕ)
before = ("run.json", foreign "{}") ∷ ("plots.tsv", foreign "old") ∷ []

abbrev no_fault : String → Option Error
no_fault name = none

abbrev full_disk : String → Option Error
full_disk name = if name == "plots.tsv" then some (os_error "No space left") else none

outcome_names : List (File ℕ) × Outcome Publication → List String
outcome_names (files, outcome) = map (λ (f : File ℕ). f.0) files

-- The manifest is the last file, and a full disk leaves none of them.
publish_reports-names :
    outcome_names (
      publish_reports whole_numbers
        (λ a b. true)
        show
        (λ name. name)
        no_fault
        state
        (record { catalog = none; w3c = some report })
        before)
    ≡ "run.json" ∷ "dual-w3c-passed.csv" ∷ "dual-w3c-wrong-verdicts.csv" ∷ "dual-w3c-errors.csv"
      ∷ "dual-w3c-excluded.csv" ∷ "dual-implementation-plots.html" ∷ "plots.tsv" ∷ []
unfolding outcome_names publish_reports clear_reports is_report write_all replace all_plots report
    w3c_plots w3c_counts validate_artifacts validate_artifact validate_controls validate_rows
    validate_row validate_cases is_hex count counts_of
publish_reports-names = refl

publish_reports-IsPublished_example :
    IsPublished whole_numbers
      (λ a b. true)
      show
      (λ name. name)
      full_disk
      state
      (record { catalog = none; w3c = some report })
      before
      (publish_reports whole_numbers
        (λ a b. true)
        show
        (λ name. name)
        full_disk
        state
        (record { catalog = none; w3c = some report })
        before)
publish_reports-IsPublished_example =
    publish_reports-IsPublished whole_numbers (λ a b. true) show (λ name. name) full_disk state
      (record { catalog = none; w3c = some report }) before

publish_reports-run_lane_example :
    HasW3cPlots whole_numbers
      (λ a b. true)
      show
      (λ name. name)
      no_fault
      state
      report
      before
      (publish_reports whole_numbers
        (λ a b. true)
        show
        (λ name. name)
        no_fault
        state
        (only_w3c whole_numbers (λ a b. true) show (λ name. name) no_fault report)
        before)
publish_reports-run_lane_example =
    publish_reports-run_lane whole_numbers (λ a b. true) show (λ name. name) no_fault machine
      (some "/suite") false report report_returned identified (λ name. refl) state before refl refl
      refl refl
