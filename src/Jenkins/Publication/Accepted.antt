-- ===== src/Jenkins/Publication/Accepted.antt =====
-- What `publish_reports` publishes when no write fails.
use xpact.Prelude.{
  ℕ, String, ◌≡◌, refl, sym, ap, ◌∙◌, Bool, true, false, not, Option, none, List, [], ◌∷◌, ◌++◌,
  length, ◌==◌, contains, arith, eq_iff, if◌then◌else◌,
}
use xpact.Prelude.Outcome.{Outcome, ok, err, Error, not_refused}
use xpact.Benchmark.Options.{Float}
use xpact.Dual.Report.{Report}
use xpact.Jenkins.Campaign.{State, overall}
use xpact.Jenkins.Plots.{Plot}
use xpact.Jenkins.Plots.W3c.{w3c_plots}
use xpact.Jenkins.CatalogPlots.{CatalogReport, catalog_plots}
use xpact.Jenkins.Publication.{
  Reports, File, clear_reports, write_all, replace, expected_overall, Publication, all_plots,
  files_of, concluded, exported, publish_reports,
}
use xpact.Jenkins.Publication.Lanes.{IsCatalog, IsW3c, IsLane-lane_plots, expected_overall-eq}

abbrev pub publication_of : ℕ → Publication
publication_of plots = record {
  manifest = "plots.tsv";
  html = "dual-implementation-plots.html";
  plots = plots;
}

module _ {F : Type 0} where
  write_all-ok :
      (fault : String → Option Error) (more files : List (File F))
      → ((name : String) → fault name ≡ none)
      → (write_all fault more files).1 ≡ ok tt
  unfolding write_all
  write_all-ok fault [] files h = refl
  write_all-ok fault (file ∷ more) files h =
      rw (h file.0, write_all) (write_all-ok fault more (replace file files) h)

  concluded-ok :
      (plots : ℕ) (result : List (File F) × Outcome (Unit {0}))
      → result.1 ≡ ok tt
      → (concluded plots result).1 ≡ ok (publication_of plots)
  concluded-ok plots (files, ok done) h = refl
  concluded-ok plots (files, err raised) h = cc

terminal_ladder :
    (failed partly : Bool)
    → contains
        ("complete" ∷ "complete_with_failures" ∷ "failed" ∷ [])
        (if failed then "failed" else if partly then "complete_with_failures" else "complete")
      ≡ true
terminal_ladder true partly = refl
terminal_ladder false true = refl
terminal_ladder false false = refl

overall_terminal :
    (catalog w3c : String)
    → contains
        ("complete" ∷ "complete_with_failures" ∷ "failed" ∷ [])
        (overall (catalog ∷ w3c ∷ []))
      ≡ true
overall_terminal catalog w3c =
    terminal_ladder (contains (catalog ∷ w3c ∷ []) "failed")
      (contains (catalog ∷ w3c ∷ []) "complete_with_failures")

same_refused : (a b c : String) → a ≡ b → c ≡ b → not (a == c) ≡ false
same_refused a b c h k = ground (arith, (eq_iff a c).1 (h ∙ sym k))

module _ {F : Type 0} (float : Float F) (is_close : F → F → Bool) where
  all_plots-ok :
      (state : State) (reports : Reports F) (own more : List (Plot F))
      → (state.build_id == "") ≡ false
      → state.status ≡ overall (state.catalog.status ∷ state.w3c.status ∷ [])
      → IsCatalog float is_close state reports own
      → IsW3c float is_close state reports more
      → all_plots float is_close state reports ≡ ok (own ++ more)
  unfolding all_plots
  all_plots-ok state reports own more owned same a b =
      not_refused (state.build_id == "") _ _ owned
      ∙ not_refused
          (not (contains ("complete" ∷ "complete_with_failures" ∷ "failed" ∷ []) state.status)) _ _
          (ap
              (λ (s : String).
                not (contains ("complete" ∷ "complete_with_failures" ∷ "failed" ∷ []) s))
              same
            ∙ ap not (overall_terminal state.catalog.status state.w3c.status))
      ∙ rw
          (IsLane-lane_plots (λ (r : CatalogReport F). r.status) (catalog_plots float is_close)
            state.catalog.status reports.catalog own a)
          (rw
            (IsLane-lane_plots (λ (r : Report). r.status) (w3c_plots float) state.w3c.status
              reports.w3c more b)
            (not_refused
              (not
                (state.status == expected_overall (state.catalog.status ∷ state.w3c.status ∷ [])))
              _ _
              (same_refused state.status (overall (state.catalog.status ∷ state.w3c.status ∷ []))
                (expected_overall (state.catalog.status ∷ state.w3c.status ∷ [])) same
                (expected_overall-eq state.catalog.status state.w3c.status))))

module _ {F : Type 0} (float : Float F) (is_close : F → F → Bool) (exact : F → String)
    (located : String → String) (fault : String → Option Error) where
  -- Without a failing write, accepted lanes are published.
  pub publish_reports-ok :
      (state : State) (reports : Reports F) (before : List (File F)) (own more : List (Plot F))
      → ((name : String) → fault name ≡ none)
      → (state.build_id == "") ≡ false
      → state.status ≡ overall (state.catalog.status ∷ state.w3c.status ∷ [])
      → IsCatalog float is_close state reports own
      → IsW3c float is_close state reports more
      → (publish_reports float is_close exact located fault state reports before).1
        ≡ ok (publication_of (length (own ++ more)))
  unfolding publish_reports
  publish_reports-ok state reports before own more writable owned same a b =
      ap
        (λ plots.
          (exported float is_close exact located fault state reports (clear_reports before)
            plots).1)
        (all_plots-ok float is_close state reports own more owned same a b)
      ∙ concluded-ok (length (own ++ more))
          (write_all fault (files_of exact located state reports (own ++ more))
            (clear_reports before))
          (write_all-ok fault (files_of exact located state reports (own ++ more))
            (clear_reports before) writable)
