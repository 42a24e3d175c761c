-- ===== src/Jenkins/Publication/Lanes.antt =====
-- What a lane gives, and the names of the files for it.
use xpact.Prelude.{
  String, ◌≡◌, ◌⊎◌, ◌<>◌, refl, sym, ap, ◌∙◌, subst, Bool, true, false, not, Option, none, some,
  List, [], ◌∷◌, ◌++◌, map, map-append, all, all-map, ◌==◌, contains, arith, eq_iff, Bool-cases,
  inl, inr,
}
use xpact.Prelude.Outcome.{Outcome, ok, ok_inj, refused, not_refused}
use xpact.Benchmark.Options.{Float}
use xpact.Dual.Report.{Report}
use xpact.Jenkins.Campaign.{State, overall}
use xpact.Jenkins.Junit.{distinct}
use xpact.Jenkins.Plots.{Plot}
use xpact.Jenkins.Plots.W3c.{w3c_plots}
use xpact.Jenkins.CatalogPlots.{CatalogReport, catalog_plots}
use xpact.Jenkins.Publication.{
  report_files, Reports, File, is_report, completed, lane_plots, expected_overall, csv_file,
  files_of,
}
use xpact.Jenkins.Publication.Tokens.{
  tokens, w3c_tokens, catalog_tokens, w3c_plots-tokens, catalog_plots-tokens,
}

-- A lane that failed has no report and no plots; another one has a report of its status, whose
-- plots are accepted.
abbrev pub IsLane :
    {R P : Type 0} → (R → String) → (R → Outcome (List P)) → String → Option R → List P → Type 0
IsLane status_of plots_of status none plots = (status ≡ "failed") × (plots ≡ [])
IsLane status_of plots_of status (some report) plots =
    (contains completed status ≡ true) × (status_of report ≡ status) × (plots_of report ≡ ok plots)

pub true_of_not : (b : Bool) → not b ≡ false → b ≡ true
true_of_not b h = ground (arith, h)

module _ {R P : Type 0} (status_of : R → String) (plots_of : R → Outcome (List P)) where
  pub lane_plots-IsLane :
      (status : String) (given : Option R) (plots : List P)
      → lane_plots status_of plots_of status given ≡ ok plots
      → IsLane status_of plots_of status given plots
  lane_plots-IsLane status none plots h = elim (Bool-cases (contains completed status)) [
    | inl complete ↦ let stopped = rw complete at h in cc
    | inr other ↦
        let (failed, h1) = refused (not (status == "failed")) _ _ plots (rw other at h) in
        ((eq_iff status "failed").0 (ground (arith, failed)), sym (ok_inj [] plots h1))
  ]
  lane_plots-IsLane status (some report) plots h = elim (Bool-cases (contains completed status)) [
    | inr other ↦ let stopped = rw other at h in cc
    | inl complete ↦
        let (same, h1) = refused (not (status_of report == status)) _ _ plots (rw complete at h) in
        (complete, (eq_iff (status_of report) status).0 (ground (arith, same)), h1)
  ]

  pub IsLane-lane_plots :
      (status : String) (given : Option R) (plots : List P)
      → IsLane status_of plots_of status given plots
      → lane_plots status_of plots_of status given ≡ ok plots
  IsLane-lane_plots status none plots (failed, empty) = rw failed (rw empty refl)
  IsLane-lane_plots status (some report) plots (complete, same, accepted) = rw complete (
      not_refused (not (status_of report == status)) _ _
        (ground (arith, (eq_iff (status_of report) status).1 same))
      ∙ accepted)

pub expected_overall-eq :
    (catalog w3c : String) → expected_overall (catalog ∷ w3c ∷ []) ≡ overall (catalog ∷ w3c ∷ [])
expected_overall-eq catalog w3c = ground (
  arith,
  eq_iff catalog "failed",
  eq_iff w3c "failed",
  eq_iff "failed" catalog,
  eq_iff "failed" w3c,
  eq_iff catalog "complete_with_failures",
  eq_iff w3c "complete_with_failures",
  eq_iff "complete_with_failures" catalog,
  eq_iff "complete_with_failures" w3c,
)

-- Two different names of reports are written.
abbrev AreNames : List String → Type 0
AreNames names = (distinct names ≡ true) × (all (contains report_files) names ≡ true)

-- The names of the files for the plots with these tokens.
abbrev file_names : List String → List String
file_names tokens =
    map (λ token. token <> ".csv") tokens ++ ("dual-implementation-plots.html" ∷ "plots.tsv" ∷ [])

module _ {F : Type 0} where
  pub reports_all :
      (files : List (File F))
      → all (contains report_files) (map (λ (f : File F). f.0) files) ≡ true
      → all is_report files ≡ true
  unfolding is_report
  reports_all files h = sym (all-map (contains report_files) (λ (f : File F). f.0) files) ∙ h

  names_of_both :
      (own more : List (Plot F))
      → (tokens own ≡ []) ⊎ (tokens own ≡ catalog_tokens)
      → (tokens more ≡ []) ⊎ (tokens more ≡ w3c_tokens)
      → AreNames (file_names (tokens own ++ tokens more))
  names_of_both own more (inl a) (inl b) = rw (a, b) (refl, refl)
  names_of_both own more (inl a) (inr b) = rw (a, b) (refl, refl)
  names_of_both own more (inr a) (inl b) = rw (a, b) (refl, refl)
  names_of_both own more (inr a) (inr b) = rw (a, b) (refl, refl)

  names_csv :
      (exact : F → String) (located : String → String) (plots : List (Plot F))
      (last : List (File F))
      → map (λ (f : File F). f.0) (map (csv_file exact located) plots ++ last)
        ≡ map (λ token. token <> ".csv") (tokens plots) ++ map (λ (f : File F). f.0) last
  names_csv exact located [] last = refl
  names_csv exact located (plot ∷ plots) last =
      ap (λ names. (plot.token <> ".csv") ∷ names) (names_csv exact located plots last)

module _ {F : Type 0} (float : Float F) (is_close : F → F → Bool) where
  abbrev pub IsCatalog : State → Reports F → List (Plot F) → Type 0
  IsCatalog state reports plots =
      IsLane (λ (r : CatalogReport F). r.status) (catalog_plots float is_close) state.catalog.status
        reports.catalog plots

  abbrev pub IsW3c : State → Reports F → List (Plot F) → Type 0
  IsW3c state reports plots =
      IsLane (λ (r : Report). r.status) (w3c_plots float) state.w3c.status reports.w3c plots

  catalog-tokens :
      (status : String) (given : Option (CatalogReport F)) (plots : List (Plot F))
      → IsLane (λ (r : CatalogReport F). r.status) (catalog_plots float is_close) status given plots
      → (tokens plots ≡ []) ⊎ (tokens plots ≡ catalog_tokens)
  catalog-tokens status none plots h = inl (ap (λ (ps : List (Plot F)). tokens ps) h.1)
  catalog-tokens status (some report) plots (c, s, accepted) =
      inr (catalog_plots-tokens float is_close report plots accepted)

  w3c-tokens :
      (status : String) (given : Option Report) (plots : List (Plot F))
      → IsLane (λ (r : Report). r.status) (w3c_plots float) status given plots
      → (tokens plots ≡ []) ⊎ (tokens plots ≡ w3c_tokens)
  w3c-tokens status none plots h = inl (ap (λ (ps : List (Plot F)). tokens ps) h.1)
  w3c-tokens status (some report) plots (c, s, accepted) =
      inr (w3c_plots-tokens float report plots accepted)

module _ {F : Type 0} (float : Float F) (is_close : F → F → Bool) (exact : F → String)
    (located : String → String) where
  -- The files that are written for plots of both lanes.
  pub files_of-AreNames :
      (state : State) (reports : Reports F) (own more : List (Plot F))
      → IsCatalog float is_close state reports own
      → IsW3c float is_close state reports more
      → AreNames (map (λ (f : File F). f.0) (files_of exact located state reports (own ++ more)))
  files_of-AreNames state reports own more a b =
      subst AreNames
        (sym (
          names_csv exact located (own ++ more) _
          ∙ ap (λ names. file_names names) (map-append (λ (p : Plot F). p.token) own more)))
        (names_of_both own more
          (catalog-tokens float is_close state.catalog.status reports.catalog own a)
          (w3c-tokens float is_close state.w3c.status reports.w3c more b))
