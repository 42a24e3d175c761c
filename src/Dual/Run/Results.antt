-- ===== src/Dual/Run/Results.antt =====
-- The results of the loops over the artifacts and the cases.
use mathlib.Core.List.{append-nil}
use xpact.Prelude.{
  ℕ, suc, String, ◌≡◌, sym, ap, ◌∙◌, subst, true, false, not, Option, none, some, List, [], ◌∷◌,
  ◌++◌,
}
use xpact.Prelude.Outcome.{Outcome, ok, >>=-eq-ok, refused, ok_inj}
use xpact.Conformance.Case.{Case, Result}
use xpact.Conformance.Runner.{Diagnostics, run_case, stored}
use xpact.Conformance.Runner.Coherent.{IsCoherent, run_case-IsCoherent}
use xpact.Dual.Comparison.Table.{Answers}
use xpact.Dual.Report.{Artifact}
use xpact.Dual.Build.{engine, Builds, verify_artifact}
use xpact.Dual.Lane.{
  Snapshot, same_snapshot, Suite, verify_case_input, Runs, run_verified, run_artifacts,
}

stored_result :
    (persist : Diagnostics → Outcome (Unit {0})) (answer : Result × Option Diagnostics)
    (result : Result)
    → stored persist answer ≡ ok result
    → answer.0 ≡ result
stored_result persist (made, none) result h = ok_inj made result h
stored_result persist (made, some diagnostics) result h =
    let (t, e, h1) = >>=-eq-ok (persist diagnostics) _ h in ok_inj made result h1

module _ (builds : Builds) (suite : Suite) (runs : Runs) where
  run_verified-Answers :
      (implementation executable : String) (index : ℕ) (before : Snapshot) (cases : List Case)
      (results : List Result)
      → run_verified builds suite runs implementation executable index before cases ≡ ok results
      → Answers implementation cases results
  unfolding run_verified
  run_verified-Answers implementation executable index before [] results h =
      subst (Answers implementation []) (ok_inj [] results h) tt
  run_verified-Answers implementation executable index before (case ∷ cases) results h =
      let (t, e1, h1) =
        >>=-eq-ok (verify_case_input suite implementation index false case before) _ h in
      let answer =
        run_case runs.disk runs.launch runs.clock case implementation executable
          (runs.options index case) in
      let (result, e2, h2) = >>=-eq-ok (stored runs.persist answer) _ h1 in
      let (u, e3, h3) =
        >>=-eq-ok (verify_case_input suite implementation index true case before) _ h2 in
      let (rest, e4, h4) =
        >>=-eq-ok
          (run_verified builds suite runs implementation executable (suc index) before cases) _
          h3 in
      subst (Answers implementation (case ∷ cases)) (ok_inj _ results h4) (
        subst (IsCoherent case implementation) (stored_result runs.persist answer result e2) (
            run_case-IsCoherent runs.disk runs.launch runs.clock case implementation executable
              (runs.options index case)),
        run_verified-Answers implementation executable (suc index) before cases rest e4,
      )

  run_last :
      (before : Snapshot) (cases : List Case) (core : Artifact) (results : List Result)
      → run_artifacts builds suite runs before cases (("xpact-core", core) ∷ []) ≡ ok results
      → (second : List Result) × Answers "xpact-core" cases second × (results ≡ second)
  unfolding run_artifacts
  run_last before cases core results h =
      let (t, e1, h1) = >>=-eq-ok (verify_artifact builds (engine "xpact-core") core) _ h in
      let (now, e2, h2) = >>=-eq-ok (suite.snapshot (engine "xpact-core")) _ h1 in
      let (same, h3) = refused (not (same_snapshot now before)) _ _ results h2 in
      let (second, e4, h4) =
        >>=-eq-ok (run_verified builds suite runs "xpact-core" core.executable 1 before cases) _
          h3 in
      (
        second,
        run_verified-Answers "xpact-core" core.executable 1 before cases second e4,
        sym (ok_inj (second ++ []) results h4) ∙ append-nil second,
      )

  -- Both loops.
  pub run_artifacts-Answers :
      (before : Snapshot) (cases : List Case) (own core : Artifact) (results : List Result)
      → run_artifacts builds suite runs before cases (("xpact", own) ∷ ("xpact-core", core) ∷ [])
        ≡ ok results
      → (first : List Result) × (second : List Result) × Answers "xpact" cases first
        × Answers "xpact-core" cases second
        × (results ≡ first ++ second)
  unfolding run_artifacts
  run_artifacts-Answers before cases own core results h =
      let (t, e1, h1) = >>=-eq-ok (verify_artifact builds (engine "xpact") own) _ h in
      let (now, e2, h2) = >>=-eq-ok (suite.snapshot (engine "xpact")) _ h1 in
      let (same, h3) = refused (not (same_snapshot now before)) _ _ results h2 in
      let (first, e4, h4) =
        >>=-eq-ok (run_verified builds suite runs "xpact" own.executable 1 before cases) _ h3 in
      let (more, e5, h5) =
        >>=-eq-ok (run_artifacts builds suite runs before cases (("xpact-core", core) ∷ [])) _ h4 in
      let (second, answers, whole) = run_last before cases core more e5 in
      (
        first,
        second,
        run_verified-Answers "xpact" own.executable 1 before cases first e4,
        answers,
        sym (ok_inj (first ++ more) results h5) ∙ ap (λ r. first ++ r) whole,
      )
