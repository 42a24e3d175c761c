-- ===== src/Jenkins/Publication/Independent.antt =====
-- The W3C plots of a campaign whose catalog lane failed.
use xpact.Prelude.{
  String, ◌≡◌, refl, sym, ap, ◌∙◌, subst, Bool, true, false, not, ◌||◌, Option, none, some, List,
  [], ◌∷◌, ◌++◌, map, All, ◌==◌, contains, arith,
}
use xpact.Prelude.Outcome.{Outcome, ok, err, Error, ok_inj, refused}
use xpact.Benchmark.Options.{Float}
use xpact.Dual.Report.{Report, Artifact}
use xpact.Dual.Run.{Machine, run_lane}
use xpact.Jenkins.Campaign.{State, overall}
use xpact.Jenkins.Plots.{Plot}
use xpact.Jenkins.Plots.Controlled.{HasIdentity}
use xpact.Jenkins.Plots.Accepted.{IsPlotted, counted, counted_as, w3c_plots-run_lane}
use xpact.Jenkins.Plots.W3c.{w3c_plots, w3c_specs, Counts}
use xpact.Jenkins.Publication.{
  Reports, File, clear_reports, completed, Publication, files_of, publish_reports,
}
use xpact.Jenkins.Publication.Lanes.{IsW3c}
use xpact.Jenkins.Publication.Exported.{IsExport, IsPublished, publish_reports-IsPublished}
use xpact.Jenkins.Publication.Accepted.{publication_of, publish_reports-ok}

module _ {F : Type 0} (float : Float F) (is_close : F → F → Bool) (exact : F → String)
    (located : String → String) (fault : String → Option Error) where
  IsExport-of :
      (state : State) (reports : Reports F) (before : List (File F)) (publication : Publication)
      (result : List (File F) × Outcome Publication)
      → IsPublished float is_close exact located fault state reports before result
      → result.1 ≡ ok publication
      → IsExport float is_close exact located fault state reports before result.0 publication
  IsExport-of state reports before publication (after, err raised) h e = cc
  IsExport-of state reports before publication (after, ok made) h e =
      subst (IsExport float is_close exact located fault state reports before after)
        (ok_inj made publication e) h

  -- The report of a W3C run alone.
  abbrev pub only_w3c : Report → Reports F
  only_w3c report = record { catalog = none; w3c = some report }

  -- The four W3C plots stand behind the files of others, and nothing else.
  abbrev pub HasW3cPlots :
      State → Report → List (File F) → List (File F) × Outcome Publication → Type 0
  HasW3cPlots state report before (after, outcome) =
      (own : Counts) × (core : Counts) × (outcome ≡ ok (publication_of 4))
      × (after
          ≡ clear_reports before
            ++ files_of exact located state (only_w3c report) (w3c_specs float own core))
      × (map counted report.engines ≡ counted_as "xpact" own ∷ counted_as "xpact-core" core ∷ [])

  completed_plots :
      (report : Report) (plots : List (Plot F))
      → w3c_plots float report ≡ ok plots
      → contains completed report.status ≡ true
  unfolding w3c_plots
  completed_plots report plots h =
      let (fine, rest) =
        refused
          (not (contains ("complete" ∷ "complete_with_failures" ∷ []) report.status)
            || not (report.lane == "w3c-finalized-assertions-off"))
          _ _ plots h in
      ground (arith, fine)

  only_w3c-HasW3cPlots :
      (state : State) (report : Report) (before : List (File F))
      → ((name : String) → fault name ≡ none)
      → (state.build_id == "") ≡ false
      → state.status ≡ "failed"
      → state.catalog.status ≡ "failed"
      → state.w3c.status ≡ report.status
      → IsPlotted float report
      → HasW3cPlots state report before
          (publish_reports float is_close exact located fault state (only_w3c report) before)
  only_w3c-HasW3cPlots state report before writable owned ended failed same plotted =
      let (own, core, accepted, counts) = plotted in
      let plots = w3c_specs float own core in
      let lane : IsW3c float is_close state (only_w3c report) plots = (
        subst (λ s. contains completed s ≡ true) (sym same) (completed_plots report plots accepted),
        sym same,
        accepted,
      ) in
      let total : state.status ≡ overall (state.catalog.status ∷ state.w3c.status ∷ []) =
        ended ∙ ap (λ s. overall (s ∷ state.w3c.status ∷ [])) (sym failed) in
      let published =
        publish_reports-ok float is_close exact located fault state (only_w3c report) before []
          plots writable owned total (failed, refl) lane in
      let (first, second, (f, none_first), (c, s, again), t, number, files) =
        IsExport-of state (only_w3c report) before (publication_of 4)
          (publish_reports float is_close exact located fault state (only_w3c report) before)
          (publish_reports-IsPublished float is_close exact located fault state (only_w3c report)
            before)
          published in
      (
        own,
        core,
        published,
        files
            ∙ ap (λ ps. clear_reports before ++ files_of exact located state (only_w3c report) ps)
                (ap (λ ps. ps ++ second) none_first ∙ ok_inj second plots (sym again ∙ accepted)),
        counts,
      )

module _ {F : Type 0} (float : Float F) (is_close : F → F → Bool) (exact : F → String)
    (located : String → String) (fault : String → Option Error) (machine : Machine)
    (suite_dir : Option String) (offline : Bool) (report : Report)
    (returned : (run_lane machine suite_dir offline).outcome ≡ ok report)
    (identified : All (λ (a : String × Artifact). HasIdentity a.1) report.artifacts)
    (writable : (name : String) → fault name ≡ none) where
  -- A catalog lane that failed does not hide the W3C lane: if no write fails, a state that names its
  -- build, has failed with that lane, and carries the status of the report that a W3C run has
  -- returned, whose artifacts have their identities, is published. The directory then holds the files
  -- of others and after them the four W3C plots with the counts of that report, the page and the
  -- manifest.
  pub publish_reports-run_lane :
      (state : State) (before : List (File F))
      → (state.build_id == "") ≡ false
      → state.status ≡ "failed"
      → state.catalog.status ≡ "failed"
      → state.w3c.status ≡ report.status
      → HasW3cPlots float is_close exact located fault state report before (
          publish_reports float is_close exact located fault state
            (only_w3c float is_close exact located fault report)
            before)
  publish_reports-run_lane state before owned ended failed same =
      only_w3c-HasW3cPlots float is_close exact located fault state report before writable owned
        ended failed same
        (w3c_plots-run_lane float machine suite_dir offline report returned identified)
