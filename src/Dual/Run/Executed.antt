-- ===== src/Dual/Run/Executed.antt =====
-- What the execution of the artifacts reports.
use xpact.Prelude.{
  String, ◌≡◌, sym, ap, ◌∙◌, subst, Bool, true, false, not, some, List, [], ◌∷◌, ◌==◌, any, arith,
}
use xpact.Prelude.Outcome.{ok, >>=-eq-ok, refused, ok_inj, ◌>>◌}
use xpact.Conformance.Case.{Case, Result}
use xpact.Dual.Comparison.{Row, comparison_rows}
use xpact.Dual.Report.{Artifact, BuildRow, Report}
use xpact.Dual.Build.{after_execution, mismatched, build_row, verify_sources}
use xpact.Dual.Build.Gate.{IsControlled, build_row-IsNamed}
use xpact.Dual.Lane.{Snapshot, same_snapshot, run_artifacts, verify_all, report_of}
use xpact.Dual.Run.{Machine, all_rows, artifacts_with, execute}
use xpact.Dual.Run.Results.{run_artifacts-Answers}
use xpact.Dual.Run.Built.{executed_artifact, IsReported, IsRun}

module _ (machine : Machine) where
  built_of :
      (implementation : String) (assertions : Bool)
      → ((build_row machine.builds implementation assertions).0.status == "executed") ≡ true
      → (artifact : Artifact) × ((build_row machine.builds implementation assertions).1
          ≡ some artifact)
        × (mismatched machine.builds artifact implementation assertions ≡ false)
        × ((build_row machine.builds implementation assertions).0.status ≡ "executed")
        × IsControlled machine.builds
            (build_row machine.builds implementation assertions).0.cases
            (build_row machine.builds implementation assertions).0.qualification_error
  built_of implementation assertions e =
      executed_artifact machine.builds implementation assertions
        (build_row machine.builds implementation assertions)
        (build_row-IsNamed machine.builds implementation assertions) e

  -- The checks after the comparison leave the report as it is.
  IsReported-of :
      (audits : List (String × Artifact)) (own core : Artifact) (before : Snapshot)
      (cases : List Case) (report : Report) (results : List Result) (rows : List Row)
      → run_artifacts machine.builds machine.suite machine.runs before cases
          (("xpact", own) ∷ ("xpact-core", core) ∷ [])
        ≡ ok results
      → comparison_rows cases results ≡ ok rows
      → (verify_sources machine.builds after_execution audits
            (("xpact", own) ∷ ("xpact-core", core) ∷ [])
          >> (verify_all machine.builds machine.suite machine.runs after_execution
                (("xpact", own) ∷ ("xpact-core", core) ∷ [])
              >> ok (
                  report_of cases
                    (("xpact", own) ∷ ("xpact-core", core) ∷ [])
                    (all_rows machine)
                    rows
                    results)))
        ≡ ok report
      → IsReported machine own core cases report
  IsReported-of audits own core before cases report results rows r1 r2 h4 =
      let (t, r5, h5) =
        >>=-eq-ok
          (verify_sources machine.builds after_execution audits
            (("xpact", own) ∷ ("xpact-core", core) ∷ []))
          _ h4 in
      let (u, r6, h6) =
        >>=-eq-ok
          (verify_all machine.builds machine.suite machine.runs after_execution
            (("xpact", own) ∷ ("xpact-core", core) ∷ []))
          _ h5 in
      let (first, second, a, b, whole) =
        run_artifacts-Answers machine.builds machine.suite machine.runs before cases own core
          results r1 in
      record {
        own_results = first;
        core_results = second;
        rows = rows;
        own_answers = a;
        core_answers = b;
        compared = subst (λ r. comparison_rows cases r ≡ ok rows) whole r2;
        reported =
            sym (ok_inj _ report h6)
            ∙ ap
                (λ r.
                  report_of cases (("xpact", own) ∷ ("xpact-core", core) ∷ []) (all_rows machine)
                    rows r)
                whole;
      }

  execute-IsReported :
      (audits : List (String × Artifact)) (own core : Artifact) (before : Snapshot)
      (cases : List Case) (report : Report)
      → execute machine audits
          (("xpact", own) ∷ ("xpact-core", core) ∷ [])
          (all_rows machine)
          before
          cases
        ≡ ok report
      → IsReported machine own core cases report
  unfolding execute
  execute-IsReported audits own core before cases report h =
      let (results, r1, h1) =
        >>=-eq-ok
          (run_artifacts machine.builds machine.suite machine.runs before cases
            (("xpact", own) ∷ ("xpact-core", core) ∷ []))
          _ h in
      let (rows, r2, h2) = >>=-eq-ok (comparison_rows cases results) _ h1 in
      let (now, r3, h3) = >>=-eq-ok (machine.suite.snapshot after_execution) _ h2 in
      let (same, h4) = refused (not (same_snapshot now before)) _ _ report h3 in
      IsReported-of audits own core before cases report results rows r1 r2 h4

  pub execute-IsRun :
      (before : Snapshot) (cases : List Case) (report : Report)
      → any (λ case. case.skip_reason == "") cases ≡ true
      → any (λ (row : BuildRow). not (row.status == "executed")) (all_rows machine) ≡ false
      → execute machine
          (artifacts_with machine true)
          (artifacts_with machine false)
          (all_rows machine)
          before
          cases
        ≡ ok report
      → IsRun machine report
  execute-IsRun before cases report applicable gate_open h =
      let (own_audit, e1, m1, s1, c1) = built_of "xpact" true (ground (arith, gate_open)) in
      let (core_audit, e2, m2, s2, c2) = built_of "xpact-core" true (ground (arith, gate_open)) in
      let (own, e3, m3, s3, c3) = built_of "xpact" false (ground (arith, gate_open)) in
      let (core, e4, m4, s4, c4) = built_of "xpact-core" false (ground (arith, gate_open)) in
      record {
        cases = cases;
        own = own;
        core = core;
        applicable = applicable;
        own_built = e3;
        core_built = e4;
        own_matches = m3;
        core_matches = m4;
        executed = ((s1, c1), ((s2, c2), ((s3, c3), ((s4, c4), tt))));
        outcome =
            execute-IsReported (artifacts_with machine true) own core before cases report
              (rw (e3, e4) at h);
      }
