-- ===== src/Jenkins/Plots/Accepted.antt =====
-- The report of a run of scripts/run_dual_w3c.py passes the checks of `w3c_plots`.
use xpact.Prelude.{
  bool_eq, String, ◌≡◌, refl, sym, ◌∙◌, subst, Bool, true, false, not, ◌||◌, Option, List, [], ◌∷◌,
  ◌++◌, ◌==◌, any, All, contains, nat_eq, map, arith, if◌then◌else◌,
}
use xpact.Prelude.Int.{ℤ, pos}
use xpact.Prelude.Outcome.{ok, not_refused}
use xpact.Conformance.Case.{Case, Result}
use xpact.Conformance.Reports.{with_status}
use xpact.Benchmark.Options.{Float}
use xpact.Dual.Comparison.{Row}
use xpact.Dual.Comparison.Table.{Answers}
use xpact.Dual.Report.{Artifact, BuildRow, Engine, Report}
use xpact.Dual.Build.{mismatched, build_row, Builds}
use xpact.Dual.Build.Gate.{IsControlled, build_row-IsNamed}
use xpact.Dual.Lane.{has_failures, report_of}
use xpact.Dual.Run.{Machine, all_rows, run_lane}
use xpact.Dual.Run.Accepted.{run_lane-IsRun}
use xpact.Jenkins.Plots.{w3c, validate_artifacts, key_of, validate_controls}
use xpact.Jenkins.Plots.W3c.{Counts, has_failed, w3c_specs, w3c_counts, w3c_plots}
use xpact.Jenkins.Plots.Counting.{skipped-Answers, of_engine_both}
use xpact.Jenkins.Plots.Controlled.{
  HasIdentity, validate_artifact-eq-ok, row_failed, controls-eq-ok,
}
use xpact.Jenkins.Plots.Reconciled.{
  counts_from, all_counts-eq-ok, failures_agree, bool_eq_refl, status_says, status_known,
  applicable_some,
}

module _ {F : Type 0} (float : Float F) (builds : Builds) where
  w3c_counts-eq-ok :
      (cases : List Case) (artifacts : List (String × Artifact)) (a b c d : BuildRow)
      (rows : List Row) (own core : List Result)
      → any (λ case. case.skip_reason == "") cases ≡ true
      → Answers "xpact" cases own
      → Answers "xpact-core" cases core
      → w3c_counts float (report_of cases artifacts (a ∷ b ∷ c ∷ d ∷ []) rows (own ++ core)) (
          row_failed builds a
          || (row_failed builds b || (row_failed builds c || (row_failed builds d || false))))
        ≡ ok (w3c_specs float (counts_from own) (counts_from core))
  unfolding w3c_counts report_of
  w3c_counts-eq-ok cases artifacts a b c d rows own core applicable x y =
      let controls =
        row_failed builds a
        || (row_failed builds b || (row_failed builds c || (row_failed builds d || false))) in
      let skips : nat_eq (with_status "skipped" own) (with_status "skipped" core) ≡ true =
        ground
          (arith, skipped-Answers "xpact" cases own x, skipped-Answers "xpact-core" cases core y) in
      let failures = has_failures (own ++ core) (a ∷ b ∷ c ∷ d ∷ []) in
      rw (applicable_some cases applicable) (
        rw (all_counts-eq-ok cases own core x y) (
          rw skips (
            not_refused
              (not (
                bool_eq
                  ((if failures then "complete_with_failures" else "complete")
                    == "complete_with_failures")
                  (controls
                    || (has_failed (counts_from own) || (has_failed (counts_from core) || false)))))
              _ _
              (bool_eq_refl _ _ (status_says failures ∙ failures_agree builds own core a b c d)))))

  artifacts-eq-ok :
      (own core : Artifact)
      → mismatched builds own "xpact" false ≡ false
      → mismatched builds core "xpact-core" false ≡ false
      → HasIdentity own
      → HasIdentity core
      → validate_artifacts w3c (("xpact", own) ∷ ("xpact-core", core) ∷ []) ≡ ok tt
  unfolding validate_artifacts
  artifacts-eq-ok own core h k i j =
      rw
        (
          validate_artifact-eq-ok builds "xpact" own h i,
          validate_artifact-eq-ok builds "xpact-core" core k j,
        )
        refl

  plots-eq-ok :
      (cases : List Case) (own core : Artifact) (a b c d : BuildRow) (rows : List Row)
      (first second : List Result)
      → any (λ case. case.skip_reason == "") cases ≡ true
      → Answers "xpact" cases first
      → Answers "xpact-core" cases second
      → validate_artifacts w3c (("xpact", own) ∷ ("xpact-core", core) ∷ []) ≡ ok tt
      → validate_controls w3c (a ∷ b ∷ c ∷ d ∷ [])
        ≡ ok (
            row_failed builds a
            || (row_failed builds b || (row_failed builds c || (row_failed builds d || false))))
      → w3c_plots float (
          report_of cases
            (("xpact", own) ∷ ("xpact-core", core) ∷ [])
            (a ∷ b ∷ c ∷ d ∷ [])
            rows
            (first ++ second))
        ≡ ok (w3c_specs float (counts_from first) (counts_from second))
  unfolding w3c_plots report_of
  plots-eq-ok cases own core a b c d rows first second applicable x y artifacts controls =
      not_refused
        (not (
            contains ("complete" ∷ "complete_with_failures" ∷ []) (
              if has_failures (first ++ second) (a ∷ b ∷ c ∷ d ∷ [])
              then "complete_with_failures"
              else "complete"))
          || false)
        _ _ (status_known (has_failures (first ++ second) (a ∷ b ∷ c ∷ d ∷ [])))
      ∙ rw artifacts (
          rw controls (
            w3c_counts-eq-ok cases (("xpact", own) ∷ ("xpact-core", core) ∷ []) a b c d rows first
              second applicable x y))

-- A row of the engines by its name and its counts.
abbrev pub counted : Engine → String × (ℤ × (ℤ × (ℤ × ℤ)))
counted row = (row.engine, (row.passed, (row.failed, (row.errors, row.skipped))))

abbrev pub counted_as : String → Counts → String × (ℤ × (ℤ × (ℤ × ℤ)))
counted_as name counts =
    (name, (pos counts.passed, (pos counts.failed, (pos counts.errors, pos counts.skipped))))

-- The plots are those of the counts that the report holds.
abbrev pub IsPlotted : {F : Type 0} → Float F → Report → Type 0
IsPlotted float report =
    (own : Counts) × (core : Counts) × (w3c_plots float report ≡ ok (w3c_specs float own core))
    × (map counted report.engines ≡ counted_as "xpact" own ∷ counted_as "xpact-core" core ∷ [])

all_rows-keys :
    (machine : Machine)
    → map key_of (all_rows machine)
      ≡ ("xpact", true) ∷ ("xpact-core", true) ∷ ("xpact", false) ∷ ("xpact-core", false) ∷ []
all_rows-keys machine =
    let a = build_row-IsNamed machine.builds "xpact" true in
    let b = build_row-IsNamed machine.builds "xpact-core" true in
    let c = build_row-IsNamed machine.builds "xpact" false in
    let d = build_row-IsNamed machine.builds "xpact-core" false in
    rw (a.0, a.1, b.0, b.1, c.0, c.1, d.0, d.1) refl

module _ {F : Type 0} (float : Float F) (machine : Machine) where
  reported-IsPlotted :
      (cases : List Case) (own core : Artifact) (rows : List Row) (first second : List Result)
      → any (λ case. case.skip_reason == "") cases ≡ true
      → Answers "xpact" cases first
      → Answers "xpact-core" cases second
      → validate_artifacts w3c (("xpact", own) ∷ ("xpact-core", core) ∷ []) ≡ ok tt
      → All
          (λ (row : BuildRow).
            (row.status ≡ "executed")
            × IsControlled machine.builds row.cases row.qualification_error)
          (all_rows machine)
      → IsPlotted float (
          report_of cases
            (("xpact", own) ∷ ("xpact-core", core) ∷ [])
            (all_rows machine)
            rows
            (first ++ second))
  unfolding report_of
  reported-IsPlotted cases own core rows first second applicable x y artifacts executed =
      let a = (build_row machine.builds "xpact" true).0 in
      let b = (build_row machine.builds "xpact-core" true).0 in
      let c = (build_row machine.builds "xpact" false).0 in
      let d = (build_row machine.builds "xpact-core" false).0 in
      let (mine, theirs) = of_engine_both cases first second x y in
      (
        counts_from first,
        counts_from second,
        plots-eq-ok float machine.builds cases own core a b c d rows first second applicable x y
            artifacts (controls-eq-ok machine.builds a b c d (all_rows-keys machine) executed),
        rw (mine, theirs) refl,
      )

module _ {F : Type 0} (float : Float F) (machine : Machine) (suite_dir : Option String)
    (offline : Bool) (report : Report)
    (returned : (run_lane machine suite_dir offline).outcome ≡ ok report)
    (identified : All (λ (a : String × Artifact). HasIdentity a.1) report.artifacts) where
  -- Whatever the parsers answer, a report that a W3C run returns supplies the plots of the publisher,
  -- provided that its artifacts carry a revision of 40 and hashes of 64 hexadecimal digits: the
  -- artifacts and the controls are accepted, the counts reconcile, both exclude as many cases and the
  -- status fits the outcomes. The values are the counts that the report holds.
  pub w3c_plots-run_lane : IsPlotted float report
  unfolding report_of
  w3c_plots-run_lane =
      let run = run_lane-IsRun machine suite_dir offline report returned in
      let ids =
        subst (λ (r : Report). All (λ (a : String × Artifact). HasIdentity a.1) r.artifacts)
          run.outcome.reported identified in
      subst (IsPlotted float) (sym run.outcome.reported) (
        reported-IsPlotted float machine run.cases run.own run.core run.outcome.rows
          run.outcome.own_results run.outcome.core_results run.applicable run.outcome.own_answers
          run.outcome.core_answers
          (artifacts-eq-ok float machine.builds run.own run.core run.own_matches run.core_matches
            ids.0 ids.1.0)
          run.executed)
