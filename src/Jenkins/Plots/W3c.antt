-- ===== src/Jenkins/Plots/W3c.antt =====
-- `w3c_plots` of scripts/dual_jenkins_reports.py: the counts of both engines, reconciled and plotted.
use xpact.Prelude.{
  bool_eq, ℕ, ◌+◌, String, Bool, true, false, not, ◌||◌, Option, none, some, List, [], ◌∷◌, map,
  any, length, ◌==◌, ◌<>◌, contains, leb, nat_eq, if◌then◌else◌,
}
use xpact.Prelude.Outcome.{Outcome, ok, err, value_error, key_error, ◌>>=◌, ◌>>◌, refuse}
use xpact.Benchmark.Options.{Float}
use xpact.Dual.Report.{Engine, Report}
use xpact.Jenkins.Plots.{
  engines, w3c, count, same_names, validate_artifacts, validate_controls, Plot,
}

-- The counts of one engine that reconcile, and whether a case failed.
pub record Counts : Type 0 where
  pub passed : ℕ
  pub failed : ℕ
  pub errors : ℕ
  pub skipped : ℕ

unfoldable pub counts_of : ℕ → Engine → Outcome Counts
unfolding count
counts_of cases row = do
  total ← count false row.total
  passed ← count false row.passed
  failed ← count false row.failed
  errors ← count false row.errors
  skipped ← count false row.skipped
  refuse (not (nat_eq total cases) || not (nat_eq (passed + (failed + (errors + skipped))) cases))
      (value_error "W3C case totals do not reconcile")
  ok (record { passed = passed; failed = failed; errors = errors; skipped = skipped })

abbrev pub has_failed : Counts → Bool
has_failed counts = leb 1 counts.failed || leb 1 counts.errors

abbrev pub all_counts : ℕ → List Engine → Outcome (List (String × Counts))
all_counts total [] = ok []
all_counts total (row ∷ rows) = do
  counts ← counts_of total row
  more ← all_counts total rows
  ok ((row.engine, counts) ∷ more)

-- `indexed[engine]`: the last row of an engine.
abbrev pub indexed : String → List (String × Counts) → Option Counts
indexed engine [] = none
indexed engine ((name, counts) ∷ rows) = elim (indexed engine rows) [
  | some later ↦ some later
  | none ↦ if name == engine then some counts else none
]

abbrev pub at_engine : String → Option Counts → Outcome Counts
at_engine engine none = err (key_error engine)
at_engine engine (some counts) = ok counts

module _ {F : Type 0} (float : Float F) where
  abbrev pub w3c_spec : (token title : String) → (own core : ℕ) → Plot F
  w3c_spec token title own core = record {
    token = "dual-w3c-" <> token;
    group = "Dual W3C conformance";
    title = "W3C finalized, assertions discarded: " <> title;
    yaxis = "Cases";
    values = float.of_nat own ∷ float.of_nat core ∷ [];
  }

  abbrev pub w3c_specs : Counts → Counts → List (Plot F)
  w3c_specs own core =
      w3c_spec "passed" "passed" own.passed core.passed
      ∷ w3c_spec "wrong-verdicts" "wrong verdicts" own.failed core.failed
      ∷ w3c_spec "errors" "process errors and timeouts" own.errors core.errors
      ∷ w3c_spec "excluded" "profile exclusions" own.skipped core.skipped
      ∷ []

  -- After the controls.
  unfoldable pub w3c_counts : Report → (control_failures : Bool) → Outcome (List (Plot F))
  unfolding counts_of count
  w3c_counts report control_failures = do
    refuse
        (not (nat_eq (length report.engines) 2)
          || not (same_names (map (λ (e : Engine). e.engine) report.engines) engines))
        (value_error "W3C counts must cover each implementation exactly once")
    total ← count true report.catalog_cases
    rows ← all_counts total report.engines
    own ← at_engine "xpact" (indexed "xpact" rows)
    core ← at_engine "xpact-core" (indexed "xpact-core" rows)
    refuse (not (nat_eq own.skipped core.skipped))
        (value_error "W3C profile exclusions differ between implementations")
    refuse
        (not (
          bool_eq (report.status == "complete_with_failures")
            (control_failures || any (λ (r : String × Counts). has_failed r.1) rows)))
        (value_error "W3C campaign status contradicts its outcomes")
    ok (w3c_specs own core)

  unfoldable pub w3c_plots : Report → Outcome (List (Plot F))
  unfolding validate_artifacts validate_controls w3c_counts
  w3c_plots report = do
    refuse
        (not (contains ("complete" ∷ "complete_with_failures" ∷ []) report.status)
          || not (report.lane == "w3c-finalized-assertions-off"))
        (value_error "An incomplete W3C campaign cannot supply plot values")
    validate_artifacts w3c report.artifacts
    has_failures ← validate_controls w3c report.qualification
    w3c_counts report has_failures
