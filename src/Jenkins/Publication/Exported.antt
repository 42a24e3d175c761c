-- ===== src/Jenkins/Publication/Exported.antt =====
-- The outcomes of `publish_reports`.
use xpact.Prelude.{
  String, ◌≡◌, refl, sym, ap, ◌∙◌, subst, Bool, true, not, Option, List, [], ◌∷◌, ◌++◌, all, length,
  ◌==◌, contains, eq_iff, &&-true,
}
use xpact.Prelude.Outcome.{Outcome, ok, err, Error, >>=-eq-ok, ok_inj, refused}
use xpact.Benchmark.Options.{Float}
use xpact.Dual.Report.{Report}
use xpact.Jenkins.Campaign.{State, overall}
use xpact.Jenkins.Plots.{Plot}
use xpact.Jenkins.Plots.W3c.{w3c_plots}
use xpact.Jenkins.CatalogPlots.{CatalogReport, catalog_plots}
use xpact.Jenkins.Publication.{
  Reports, File, is_report, clear_reports, write_all, lane_plots, expected_overall, Publication,
  all_plots, files_of, concluded, exported, publish_reports,
}
use xpact.Jenkins.Publication.Directory.{
  clear_reports-twice, absent-clear_reports, absent, write_all-append, clear_reports-write_all,
}
use xpact.Jenkins.Publication.Lanes.{
  true_of_not, lane_plots-IsLane, expected_overall-eq, IsCatalog, IsW3c, files_of-AreNames,
  reports_all,
}

module _ {F : Type 0} (float : Float F) (is_close : F → F → Bool) (exact : F → String)
    (located : String → String) (fault : String → Option Error) where
  -- The plots that both lanes give, and what the directory then holds: the files of others, and after
  -- them those of this publication.
  abbrev pub IsExport : State → Reports F → (before after : List (File F)) → Publication → Type 0
  IsExport state reports before after publication =
      (own : List (Plot F)) × (more : List (Plot F)) × IsCatalog float is_close state reports own
      × IsW3c float is_close state reports more
      × (state.status ≡ overall (state.catalog.status ∷ state.w3c.status ∷ []))
      × (publication.plots ≡ length (own ++ more))
      × (after ≡ clear_reports before ++ files_of exact located state reports (own ++ more))

  abbrev pub IsPublished :
      State → Reports F → List (File F) → List (File F) × Outcome Publication → Type 0
  IsPublished state reports before (after, err raised) = after ≡ clear_reports before
  IsPublished state reports before (after, ok publication) =
      IsExport state reports before after publication

  all_plots-parts :
      (state : State) (reports : Reports F) (plots : List (Plot F))
      → all_plots float is_close state reports ≡ ok plots
      → (own : List (Plot F)) × (more : List (Plot F)) × IsCatalog float is_close state reports own
        × IsW3c float is_close state reports more
        × (state.status ≡ overall (state.catalog.status ∷ state.w3c.status ∷ []))
        × (own ++ more ≡ plots)
  unfolding all_plots
  all_plots-parts state reports plots h =
      let (owned, h1) = refused (state.build_id == "") _ _ plots h in
      let (ended, h2) =
        refused
          (not (contains ("complete" ∷ "complete_with_failures" ∷ "failed" ∷ []) state.status)) _ _
          plots h1 in
      let (own, e3, h3) =
        >>=-eq-ok
          (lane_plots (λ (r : CatalogReport F). r.status) (catalog_plots float is_close)
            state.catalog.status reports.catalog)
          _ h2 in
      let (more, e4, h4) =
        >>=-eq-ok
          (lane_plots (λ (r : Report). r.status) (w3c_plots float) state.w3c.status reports.w3c) _
          h3 in
      let expected = expected_overall (state.catalog.status ∷ state.w3c.status ∷ []) in
      let (same, h5) = refused (not (state.status == expected)) _ _ plots h4 in
      (
        own,
        more,
        lane_plots-IsLane (λ (r : CatalogReport F). r.status) (catalog_plots float is_close)
            state.catalog.status reports.catalog own e3,
        lane_plots-IsLane (λ (r : Report). r.status) (w3c_plots float) state.w3c.status reports.w3c
            more e4,
        (eq_iff state.status expected).0 (true_of_not (state.status == expected) same)
            ∙ expected_overall-eq state.catalog.status state.w3c.status,
        ok_inj (own ++ more) plots h5,
      )

  absent_reports :
      (before files : List (File F))
      → all is_report files ≡ true
      → all (absent (clear_reports before)) files ≡ true
  absent_reports before [] h = refl
  absent_reports before (file ∷ files) h =
      let (first, rest) = &&-true (is_report file) (all is_report files) h in
      rw (absent-clear_reports file before first, absent_reports before files rest) refl

  concluded-IsPublished :
      (state : State) (reports : Reports F) (before : List (File F)) (own more : List (Plot F))
      (result : List (File F) × Outcome (Unit {0}))
      → IsCatalog float is_close state reports own
      → IsW3c float is_close state reports more
      → state.status ≡ overall (state.catalog.status ∷ state.w3c.status ∷ [])
      → write_all fault (files_of exact located state reports (own ++ more)) (clear_reports before)
        ≡ result
      → IsPublished state reports before (concluded (length (own ++ more)) result)
  concluded-IsPublished state reports before own more (after, err raised) a b same h =
      let files = files_of exact located state reports (own ++ more) in
      let (different, known) =
        files_of-AreNames float is_close exact located state reports own more a b in
      sym (ap (λ (r : List (File F) × Outcome (Unit {0})). clear_reports r.0) h)
      ∙ clear_reports-write_all fault files (clear_reports before) (reports_all files known)
      ∙ clear_reports-twice before
  concluded-IsPublished state reports before own more (after, ok done) a b same h =
      let files = files_of exact located state reports (own ++ more) in
      let (different, known) =
        files_of-AreNames float is_close exact located state reports own more a b in
      (
        own,
        more,
        a,
        b,
        same,
        refl,
        write_all-append fault files (clear_reports before) after done
            (absent_reports before files (reports_all files known)) different h,
      )

  exported-IsPublished :
      (state : State) (reports : Reports F) (before : List (File F))
      (result : Outcome (List (Plot F)))
      → all_plots float is_close state reports ≡ result
      → IsPublished state reports before
          (exported float is_close exact located fault state reports (clear_reports before) result)
  exported-IsPublished state reports before (err raised) h = clear_reports-twice before
  exported-IsPublished state reports before (ok plots) h =
      let (own, more, a, b, same, whole) = all_plots-parts state reports plots h in
      subst
        (λ (ps : List (Plot F)). IsPublished state reports before (
          exported float is_close exact located fault state reports (clear_reports before) (ok ps)))
        whole
        (concluded-IsPublished state reports before own more
          (write_all fault (files_of exact located state reports (own ++ more))
            (clear_reports before))
          a b same refl)

  -- Whichever write fails, a publication leaves the files of others as they are and in their order.
  -- If it raises, no report is left, not even one that was there before. If it returns, the status of
  -- the campaign is the overall one of its lanes; each lane failed and has no report, or its report
  -- has the lane's status and is accepted; and after the other files stand a file for each plot of
  -- both lanes, then the page and last the manifest, with all plots in it.
  pub publish_reports-IsPublished :
      (state : State) (reports : Reports F) (before : List (File F))
      → IsPublished state reports before
          (publish_reports float is_close exact located fault state reports before)
  unfolding publish_reports
  publish_reports-IsPublished state reports before =
      exported-IsPublished state reports before (all_plots float is_close state reports) refl
