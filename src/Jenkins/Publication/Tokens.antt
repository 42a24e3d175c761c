-- ===== src/Jenkins/Publication/Tokens.antt =====
-- The names of the plots that both lanes give.
use xpact.Prelude.{
  bool_eq, String, ◌≡◌, sym, ap, Bool, true, not, ◌||◌, List, [], ◌∷◌, map, any, ◌==◌, contains,
  nat_eq, length,
}
use xpact.Prelude.Outcome.{ok, >>=-eq-ok, ok_inj, refused}
use xpact.Benchmark.Options.{Float}
use xpact.Dual.Report.{Report, Engine}
use xpact.Jenkins.Plots.{
  Plot, engines, same_names, count, validate_artifacts, validate_controls, w3c, catalog,
}
use xpact.Jenkins.Plots.W3c.{
  Counts, all_counts, at_engine, indexed, has_failed, w3c_counts, w3c_plots, w3c_specs,
}
use xpact.Jenkins.CatalogPlots.{
  CatalogReport, Pair, catalog_plots, check_pairs, is_uniform, positive_number, per_thousand,
}

abbrev pub tokens : {F : Type 0} → List (Plot F) → List String
tokens {F} plots = map (λ (p : Plot F). p.token) plots

abbrev pub w3c_tokens : List String
w3c_tokens =
    "dual-w3c-passed" ∷ "dual-w3c-wrong-verdicts" ∷ "dual-w3c-errors" ∷ "dual-w3c-excluded" ∷ []

abbrev pub catalog_tokens : List String
catalog_tokens = "dual-catalog-ms-per-1000-documents" ∷ "dual-catalog-mib-per-second" ∷ []

module _ {F : Type 0} (float : Float F) where
  w3c_counts-tokens :
      (report : Report) (failures : Bool) (plots : List (Plot F))
      → w3c_counts float report failures ≡ ok plots
      → tokens plots ≡ w3c_tokens
  unfolding w3c_counts
  w3c_counts-tokens report failures plots h =
      let (a, h1) =
        refused
          (not (nat_eq (length report.engines) 2)
            || not (same_names (map (λ (e : Engine). e.engine) report.engines) engines))
          _ _ plots h in
      let (total, e2, h2) = >>=-eq-ok (count true report.catalog_cases) _ h1 in
      let (rows, e3, h3) = >>=-eq-ok (all_counts total report.engines) _ h2 in
      let (own, e4, h4) = >>=-eq-ok (at_engine "xpact" (indexed "xpact" rows)) _ h3 in
      let (core, e5, h5) = >>=-eq-ok (at_engine "xpact-core" (indexed "xpact-core" rows)) _ h4 in
      let (b, h6) = refused (not (nat_eq own.skipped core.skipped)) _ _ plots h5 in
      let (c, h7) =
        refused
          (not (
            bool_eq (report.status == "complete_with_failures")
              (failures || any (λ (r : String × Counts). has_failed r.1) rows)))
          _ _ plots h6 in
      sym (ap (λ (ps : List (Plot F)). tokens ps) (ok_inj (w3c_specs float own core) plots h7))

  pub w3c_plots-tokens :
      (report : Report) (plots : List (Plot F))
      → w3c_plots float report ≡ ok plots
      → tokens plots ≡ w3c_tokens
  unfolding w3c_plots
  w3c_plots-tokens report plots h =
      let (a, h1) =
        refused
          (not (contains ("complete" ∷ "complete_with_failures" ∷ []) report.status)
            || not (report.lane == "w3c-finalized-assertions-off"))
          _ _ plots h in
      let (t, e2, h2) = >>=-eq-ok (validate_artifacts w3c report.artifacts) _ h1 in
      let (failures, e3, h3) = >>=-eq-ok (validate_controls w3c report.qualification) _ h2 in
      w3c_counts-tokens report failures plots h3

  pub catalog_plots-tokens :
      (is_close : F → F → Bool) (report : CatalogReport F) (plots : List (Plot F))
      → catalog_plots float is_close report ≡ ok plots
      → tokens plots ≡ catalog_tokens
  unfolding catalog_plots
  catalog_plots-tokens is_close report plots h =
      let (a, h1) =
        refused
          (not (report.status == "complete")
            || not (report.lane == "catalog-finalized-assertions-off"))
          _ _ plots h in
      let (t, e2, h2) = >>=-eq-ok (validate_artifacts catalog report.artifacts) _ h1 in
      let (failures, e3, h3) = >>=-eq-ok (validate_controls catalog report.qualification) _ h2 in
      let (pairs, e4, h4) = >>=-eq-ok (count true report.pairs) _ h3 in
      let (b, h5) = refused (not (nat_eq (length report.results) pairs)) _ _ plots h4 in
      let (bytes, e6, h6) = >>=-eq-ok (count true report.input_bytes) _ h5 in
      let (iterations, e7, h7) =
        >>=-eq-ok (check_pairs float is_close bytes 1 report.results) _ h6 in
      let (c, h8) = refused (not (is_uniform float is_close iterations)) _ _ plots h7 in
      let (own_time, e9, h9) =
        >>=-eq-ok
          (positive_number float is_close (
            float.median (
              per_thousand float is_close iterations
                (map (λ (r : Pair F). r.baseline_ms) report.results))))
          _ h8 in
      let (own_rate, e10, h10) =
        >>=-eq-ok
          (positive_number float is_close
            (float.median (map (λ (r : Pair F). r.baseline_mib) report.results)))
          _ h9 in
      let (core_time, e11, h11) =
        >>=-eq-ok
          (positive_number float is_close (
            float.median (
              per_thousand float is_close iterations
                (map (λ (r : Pair F). r.candidate_ms) report.results))))
          _ h10 in
      let (core_rate, e12, h12) =
        >>=-eq-ok
          (positive_number float is_close
            (float.median (map (λ (r : Pair F). r.candidate_mib) report.results)))
          _ h11 in
      sym (ap (λ (ps : List (Plot F)). tokens ps) (ok_inj _ plots h12))
