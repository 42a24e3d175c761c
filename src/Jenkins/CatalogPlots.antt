-- ===== src/Jenkins/CatalogPlots.antt =====
-- `catalog_plots` of scripts/dual_jenkins_reports.py: the pairs of the benchmark, checked and reduced
-- to medians.
use xpact.Prelude.{
  ℕ, suc, ◌*◌, String, Bool, true, false, not, ◌||◌, List, [], ◌∷◌, map, all, length, ◌==◌, nat_eq,
  if◌then◌else◌,
}
use xpact.Prelude.Int.{ℤ, is_nat}
use xpact.Prelude.Outcome.{Outcome, ok, value_error, ◌>>=◌, ◌>>◌, refuse}
use xpact.Benchmark.Options.{Float}
use xpact.Benchmark.Measure.{is_even}
use xpact.Dual.Report.{Artifact, BuildRow}
use xpact.Jenkins.Plots.{catalog, validate_artifacts, validate_controls, count, Plot}

-- A row of `comparison["results"]`.
pub record Pair (F : Type 0) : Type 0 where
  pub workload : String
  pub pair : ℤ
  pub order : String
  pub iterations : ℤ
  pub document_bytes : ℤ
  pub baseline_ms : F
  pub baseline_mib : F
  pub candidate_ms : F
  pub candidate_mib : F

-- The report of the catalog lane.
pub record CatalogReport (F : Type 0) : Type 0 where
  pub status : String
  pub lane : String
  pub artifacts : List (String × Artifact)
  pub qualification : List BuildRow
  pub pairs : ℤ
  pub results : List (Pair F)
  pub input_bytes : ℤ

module _ {F : Type 0} (float : Float F) (is_close : F → F → Bool) where
  -- A positive finite number.
  unfoldable pub positive_number : F → Outcome F
  positive_number value = do
    refuse (not (float.is_finite value) || not (float.less (float.of_nat 0) value))
        (value_error "Catalog measurements must be finite positive numbers")
    ok value

  -- `document_bytes * iterations / (1024 * 1024) / (elapsed / 1000)`
  abbrev pub computed_rate : (document_bytes iterations : ℕ) → (elapsed : F) → F
  computed_rate document_bytes iterations elapsed =
      float.divided_by
        (float.divided_by (float.of_nat (document_bytes * iterations)) (float.of_nat 1048576))
        (float.divided_by elapsed (float.of_nat 1000))

  -- The time and the rate of one implementation.
  unfoldable pub check_rate :
      (document_bytes iterations : ℕ) → (elapsed rate : F) → Outcome (Unit {0})
  unfolding positive_number
  check_rate document_bytes iterations elapsed rate = do
    elapsed ← positive_number elapsed
    rate ← positive_number rate
    refuse (not (is_close rate (computed_rate document_bytes iterations elapsed)))
        (value_error "Catalog throughput contradicts elapsed time and document count")

  -- A pair by its number; the number of its iterations.
  unfoldable pub check_pair : (document_bytes index : ℕ) → Pair F → Outcome ℕ
  unfolding check_rate count
  check_pair document_bytes index row = do
    iterations ← count true row.iterations
    refuse
        (not (row.workload == "catalog")
          || (not (is_nat row.pair index)
              || (not (row.order == (if is_even index then "BA" else "AB"))
                  || not (is_nat row.document_bytes document_bytes))))
        (value_error "Catalog plot data changed workload, input or pair sequence")
    check_rate document_bytes iterations row.baseline_ms row.baseline_mib
    check_rate document_bytes iterations row.candidate_ms row.candidate_mib
    ok iterations

  unfoldable pub check_pairs : (document_bytes index : ℕ) → List (Pair F) → Outcome (List ℕ)
  unfolding check_pair
  check_pairs document_bytes index [] = ok []
  check_pairs document_bytes index (row ∷ rows) = do
    iterations ← check_pair document_bytes index row
    more ← check_pairs document_bytes (suc index) rows
    ok (iterations ∷ more)

  -- `len(iteration_counts) == 1`
  abbrev pub is_uniform : List ℕ → Bool
  is_uniform [] = false
  is_uniform (n ∷ ns) = all (λ m. nat_eq m n) ns

  abbrev pub per_thousand : List ℕ → List F → List F
  per_thousand [] times = []
  per_thousand (n ∷ ns) [] = []
  per_thousand (n ∷ ns) (elapsed ∷ times) =
      float.times (float.divided_by elapsed (float.of_nat n)) (float.of_nat 1000)
      ∷ per_thousand ns times

  abbrev pub spec : (token title yaxis : String) → List F → Plot F
  spec token title yaxis values = record {
    token = token;
    group = "Dual catalog";
    title = title;
    yaxis = yaxis;
    values = values;
  }

  unfoldable pub catalog_plots : CatalogReport F → Outcome (List (Plot F))
  unfolding validate_artifacts validate_controls count check_pairs positive_number
  catalog_plots report = do
    refuse
        (not (report.status == "complete")
          || not (report.lane == "catalog-finalized-assertions-off"))
        (value_error "An incomplete catalog campaign cannot supply plot values")
    validate_artifacts catalog report.artifacts
    _ ← validate_controls catalog report.qualification
    pairs ← count true report.pairs
    refuse (not (nat_eq (length report.results) pairs))
        (value_error "Catalog measurement pairs are incomplete")
    document_bytes ← count true report.input_bytes
    iterations ← check_pairs document_bytes 1 report.results
    refuse (not (is_uniform iterations))
        (value_error "Catalog pairs use different iteration counts")
    own_time ← positive_number (
        float.median (per_thousand iterations (map (λ (r : Pair F). r.baseline_ms) report.results)))
    own_rate ← positive_number (float.median (map (λ (r : Pair F). r.baseline_mib) report.results))
    core_time ← positive_number (
        float.median
          (per_thousand iterations (map (λ (r : Pair F). r.candidate_ms) report.results)))
    core_rate ←
        positive_number (float.median (map (λ (r : Pair F). r.candidate_mib) report.results))
    ok (
        spec "dual-catalog-ms-per-1000-documents"
          "Catalog finalized, assertions discarded: time per 1,000 documents"
          "Median ms per 1,000 documents" (own_time ∷ core_time ∷ [])
        ∷ spec "dual-catalog-mib-per-second" "Catalog finalized, assertions discarded: throughput"
            "Median MiB/s" (own_rate ∷ core_rate ∷ [])
        ∷ [])
