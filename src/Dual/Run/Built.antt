-- ===== src/Dual/Run/Built.antt =====
-- The builds that a run has executed, and the results it reports.
use xpact.Prelude.{
  String, ◌≡◌, refl, subst, Bool, true, false, Option, none, some, List, [], ◌∷◌, ◌++◌, ◌==◌, any,
  All, false≢true,
}
use xpact.Prelude.Outcome.{ok}
use xpact.Conformance.Case.{Case, Result}
use xpact.Dual.Comparison.{Row, comparison_rows}
use xpact.Dual.Comparison.Table.{Answers}
use xpact.Dual.Report.{Artifact, BuildRow, Report}
use xpact.Dual.Build.{Builds, mismatched, build_row}
use xpact.Dual.Build.Gate.{IsControlled, IsNamed}
use xpact.Dual.Lane.{report_of}
use xpact.Dual.Run.{Machine, all_rows}

-- An executed row has its artifact.
pub executed_artifact :
    (builds : Builds) (implementation : String) (assertions : Bool) (r : BuildRow × Option Artifact)
    → IsNamed builds implementation assertions r
    → (r.0.status == "executed") ≡ true
    → (artifact : Artifact) × (r.1 ≡ some artifact)
      × (mismatched builds artifact implementation assertions ≡ false)
      × (r.0.status ≡ "executed")
      × IsControlled builds r.0.cases r.0.qualification_error
executed_artifact builds implementation assertions (row, none) h e =
    absurd (false≢true (subst (λ s. (s == "executed") ≡ true) h.2 e))
executed_artifact builds implementation assertions (row, some artifact) h e =
    let (status, matches, controlled) = h.2 in (artifact, refl, matches, status, controlled)

-- The results of both implementations on the cases, and the report of them.
pub record IsReported (machine : Machine) (own core : Artifact) (cases : List Case)
    (report : Report) : Type 0 where
  pub own_results : List Result
  pub core_results : List Result
  pub rows : List Row
  pub own_answers : Answers "xpact" cases own_results
  pub core_answers : Answers "xpact-core" cases core_results
  pub compared : comparison_rows cases (own_results ++ core_results) ≡ ok rows
  pub reported :
      report
      ≡ report_of cases
          (("xpact", own) ∷ ("xpact-core", core) ∷ [])
          (all_rows machine)
          rows
          (own_results ++ core_results)

-- The catalog's cases with an applicable one, and the executed builds with matching artifacts.
pub record IsRun (machine : Machine) (report : Report) : Type 0 where
  pub cases : List Case
  pub own : Artifact
  pub core : Artifact
  pub applicable : any (λ case. case.skip_reason == "") cases ≡ true
  pub own_built : (build_row machine.builds "xpact" false).1 ≡ some own
  pub core_built : (build_row machine.builds "xpact-core" false).1 ≡ some core
  pub own_matches : mismatched machine.builds own "xpact" false ≡ false
  pub core_matches : mismatched machine.builds core "xpact-core" false ≡ false
  pub executed :
      All
        (λ (row : BuildRow).
          (row.status ≡ "executed") × IsControlled machine.builds row.cases row.qualification_error)
        (all_rows machine)
  pub outcome : IsReported machine own core cases report
