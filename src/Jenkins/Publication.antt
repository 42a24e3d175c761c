-- ===== src/Jenkins/Publication.antt =====
-- `clear_reports`, `replace_text` and `publish_reports` of scripts/dual_jenkins_reports.py. A file is
-- its name and what is written to it, a csv text by its rows; removing a file succeeds, and whether
-- one can be written is a parameter. The campaign's state has both lanes and no other.
pub mod Accepted
pub mod Lanes
pub mod Directory
pub mod Tokens
pub mod Exported
pub mod Independent
mod Tests
use xpact.Prelude.{
  ℕ, String, Bool, not, ◌||◌, Option, none, some, List, [], ◌∷◌, ◌++◌, map, any, keep, length, ◌==◌,
  ◌<>◌, contains, if◌then◌else◌,
}
use xpact.Prelude.Outcome.{
  Outcome, ok, err, Error, value_error, key_error, os_error, lane_error, message_of, ◌>>=◌, ◌>>◌,
  refuse,
}
use xpact.Benchmark.Options.{Float}
use xpact.Dual.Report.{Report}
use xpact.Jenkins.Campaign.{State}
use xpact.Jenkins.Plots.{Plot}
use xpact.Jenkins.Plots.W3c.{w3c_plots}
use xpact.Jenkins.CatalogPlots.{CatalogReport, catalog_plots}

abbrev pub report_files : List String
report_files =
    "plots.tsv" ∷ "dual-implementation-plots.html" ∷ "dual-catalog-ms-per-1000-documents.csv"
    ∷ "dual-catalog-mib-per-second.csv" ∷ "dual-w3c-passed.csv" ∷ "dual-w3c-wrong-verdicts.csv"
    ∷ "dual-w3c-errors.csv" ∷ "dual-w3c-excluded.csv" ∷ []

-- `lane_reports`
pub record Reports (F : Type 0) : Type 0 where
  pub catalog : Option (CatalogReport F)
  pub w3c : Option Report

-- `csv_text` of rows, `html_report` of its arguments, or what others have written.
pub data Content (F : Type 0) : Type 0 where
  rows : (delimiter : String) → List (List String) → Content F
  page : State → Reports F → List (Plot F) → Content F
  foreign : String → Content F

abbrev pub File : Type 0 → Type 0
File F = String × Content F

module _ {F : Type 0} where
  unfoldable pub is_report : File F → Bool
  is_report file = contains report_files file.0

  unfoldable pub clear_reports : List (File F) → List (File F)
  unfolding is_report
  clear_reports files = keep (λ f. not (is_report f)) files

  -- `staged.replace(path)`
  unfoldable pub replace : File F → List (File F) → List (File F)
  replace file files = keep (λ f. not (f.0 == file.0)) files ++ (file ∷ [])

  -- The writes in their order, up to one that fails.
  unfoldable pub write_all :
      (fault : String → Option Error)
      → List (File F)
      → List (File F)
      → List (File F) × Outcome (Unit {0})
  unfolding replace
  write_all fault [] files = (files, ok tt)
  write_all fault (file ∷ more) files = elim (fault file.0) [
    | some raised ↦ (files, err raised)
    | none ↦ write_all fault more (replace file files)
  ]

abbrev pub completed : List String
completed = "complete" ∷ "complete_with_failures" ∷ []

-- One round of the loop over the lanes.
abbrev pub lane_plots :
    {R P : Type 0} → (R → String) → (R → Outcome (List P)) → String → Option R → Outcome (List P)
lane_plots status_of plots_of status none =
    if contains completed status
    then err (value_error "Completed lane evidence is missing or has a different status")
    else (refuse (not (status == "failed"))
          (value_error "An incomplete lane cannot supply numeric plot values")
        >> ok [])
lane_plots status_of plots_of status (some report) =
    if contains completed status
    then (refuse (not (status_of report == status))
          (value_error "Completed lane evidence is missing or has a different status")
        >> plots_of report)
    else err (value_error "An incomplete lane cannot supply numeric plot values")

abbrev pub expected_overall : List String → String
expected_overall statuses =
    if any (λ status. status == "failed") statuses
    then "failed"
    else if any (λ status. status == "complete_with_failures") statuses
    then "complete_with_failures"
    else "complete"

-- `except (KeyError, TypeError, IndexError)`
abbrev pub converted : Error → Error
converted (key_error key) =
    value_error ("Invalid completed lane report: " <> message_of (key_error key))
converted (value_error text) = value_error text
converted (os_error text) = os_error text
converted (lane_error text) = lane_error text

pub record Publication : Type 0 where
  pub manifest : String
  pub html : String
  pub plots : ℕ

module _ {F : Type 0} (float : Float F) (is_close : F → F → Bool) where
  unfoldable pub all_plots : State → Reports F → Outcome (List (Plot F))
  unfolding catalog_plots w3c_plots
  all_plots state reports = do
    refuse (state.build_id == "") (value_error "A Jenkins build owner is required")
    refuse (not (contains ("complete" ∷ "complete_with_failures" ∷ "failed" ∷ []) state.status))
        (value_error "Only terminal campaign states can publish plot values")
    catalog ←
        lane_plots (λ (r : CatalogReport F). r.status) (catalog_plots float is_close)
          state.catalog.status reports.catalog
    w3c ← lane_plots (λ (r : Report). r.status) (w3c_plots float) state.w3c.status reports.w3c
    refuse (not (state.status == expected_overall (state.catalog.status ∷ state.w3c.status ∷ [])))
        (value_error "Overall campaign status contradicts lane states")
    ok (catalog ++ w3c)

module _ {F : Type 0} where
  abbrev pub concluded :
      ℕ → List (File F) × Outcome (Unit {0}) → List (File F) × Outcome Publication
  concluded plots (files, ok done) = (
    files,
    ok (record { manifest = "plots.tsv"; html = "dual-implementation-plots.html"; plots = plots }),
  )
  concluded plots (files, err raised) = (clear_reports files, err (converted raised))

module _ {F : Type 0} (exact : F → String) (located : String → String) where
  -- The values of a plot, written with seventeen digits.
  abbrev pub csv_file : Plot F → File F
  csv_file plot = (
    plot.token <> ".csv",
    rows "," (("xpact" ∷ "pinned Xpact-core" ∷ []) ∷ map exact plot.values ∷ []),
  )

  abbrev pub manifest_row : Plot F → List String
  manifest_row plot =
      located (plot.token <> ".csv")
      ∷ ("plot-" <> plot.token <> ".csv")
      ∷ plot.group
      ∷ plot.title
      ∷ plot.yaxis
      ∷ []

  -- The files in the order in which they are written.
  abbrev pub files_of : State → Reports F → List (Plot F) → List (File F)
  files_of state reports plots =
      map csv_file plots
      ++ (("dual-implementation-plots.html", page state reports plots)
          ∷ (
            "plots.tsv",
            rows "\t" (
                ("sourceFile" ∷ "csvFileName" ∷ "group" ∷ "title" ∷ "yaxis" ∷ [])
                ∷ map manifest_row plots),
          )
          ∷ [])

module _ {F : Type 0} (float : Float F) (is_close : F → F → Bool) (exact : F → String)
    (located : String → String) (fault : String → Option Error) where
  abbrev pub exported :
      State
      → Reports F
      → List (File F)
      → Outcome (List (Plot F))
      → List (File F) × Outcome Publication
  exported state reports files (ok plots) =
      concluded (length plots) (write_all fault (files_of exact located state reports plots) files)
  exported state reports files (err raised) = (clear_reports files, err (converted raised))

  unfoldable pub publish_reports :
      State → Reports F → List (File F) → List (File F) × Outcome Publication
  unfolding all_plots write_all clear_reports
  publish_reports state reports files =
      exported state reports (clear_reports files) (all_plots float is_close state reports)
