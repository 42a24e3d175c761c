-- ===== src/Dual/Run/Accepted.antt =====
-- What a run that returns a report has done.
use xpact.Prelude.{
  String, ◌≡◌, ◌≢◌, refl, ap, subst, Bool, true, false, not, Option, some, List, [], ◌∷◌, ◌++◌,
  ◌==◌, any, length, arith,
}
use xpact.Prelude.Outcome.{
  Error, lane_error, message_of, Outcome, ok, err, >>=-eq-ok, refused, ok_inj,
}
use xpact.Conformance.Case.{Case}
use xpact.Conformance.Catalog.{load_catalog}
use xpact.Dual.Report.{BuildRow, Report}
use xpact.Dual.Build.{preparing, before_execution, verify_sources}
use xpact.Dual.Lane.{Snapshot, prepare_suite, manifest_paths, State}
use xpact.Dual.Run.{
  Machine, clear_reports, initial, prepare, all_rows, artifacts_with, execute, publish_reports,
  said, failed, concluded, publishing, completed, executing, verified, gate, prepared, started,
  make, opened, run_lane,
}
use xpact.Dual.Run.Built.{IsRun}
use xpact.Dual.Run.Executed.{execute-IsRun}

abbrev gate_error : Error
gate_error = lane_error "W3C build/identity gate failed; see run.json"

module _ (machine : Machine) where
  said-raises :
      (written : List State) (files : List String) (state : State) (error : Error)
      (result : Outcome (Unit {0})) (report : Report)
      → (said machine written files state error result).outcome ≢ ok report
  said-raises written files state error (err other) report h = cc
  said-raises written files state error (ok done) report h = cc

  -- A run that failed returns nothing.
  failed-raises :
      (written : List State) (files : List String) (state : State) (error : Error) (report : Report)
      → (failed machine written files state error).outcome ≢ ok report
  failed-raises written files state error report h =
      let final = record state { status = "failed"; error = some (message_of error) } in
      said-raises written (clear_reports files) final error (machine.save final) report h

  concluded-outcome :
      (written : List State) (files : List String) (state : State) (made : Report)
      (result : Outcome (Unit {0})) (report : Report)
      → (concluded machine written files state made result).outcome ≡ ok report
      → made ≡ report
  concluded-outcome written files state made (err error) report h =
      absurd (failed-raises written files state error report h)
  concluded-outcome written files state made (ok done) report h = ok_inj made report h

  publishing-outcome :
      (written : List State) (state : State) (made : Report)
      (result : List String × Outcome (Unit {0})) (report : Report)
      → (publishing machine written state made result).outcome ≡ ok report
      → made ≡ report
  publishing-outcome written state made (files, err error) report h =
      absurd (failed-raises written files state error report h)
  publishing-outcome written state made (files, ok done) report h =
      let final = record state { status = made.status } in
      concluded-outcome written files final made (machine.save final) report h

  completed-outcome :
      (written : List State) (state : State) (result : Outcome Report) (report : Report)
      → (completed machine written state result).outcome ≡ ok report
      → result ≡ ok report
  completed-outcome written state (err error) report h =
      absurd (failed-raises written [] state error report h)
  completed-outcome written state (ok made) report h =
      ap ok (publishing-outcome written state made (publish_reports machine made) report h)

  executing-IsRun :
      (written : List State) (state : State) (before : Snapshot) (cases : List Case)
      (result : Outcome (Unit {0})) (report : Report)
      → any (λ case. case.skip_reason == "") cases ≡ true
      → any (λ (row : BuildRow). not (row.status == "executed")) (all_rows machine) ≡ false
      → (executing machine written state before cases result).outcome ≡ ok report
      → IsRun machine report
  executing-IsRun written state before cases (err error) report applicable gate_open h =
      absurd (failed-raises written [] state error report h)
  executing-IsRun written state before cases (ok done) report applicable gate_open h =
      execute-IsRun machine before cases report applicable gate_open (
        completed-outcome (written ++ (state ∷ [])) state
          (execute machine (artifacts_with machine true) (artifacts_with machine false)
            (all_rows machine) before cases)
          report h)

  verified-IsRun :
      (written : List State) (state : State) (before : Snapshot) (cases : List Case)
      (sources : Outcome (Unit {0})) (report : Report)
      → any (λ case. case.skip_reason == "") cases ≡ true
      → any (λ (row : BuildRow). not (row.status == "executed")) (all_rows machine) ≡ false
      → (verified machine written state before cases sources).outcome ≡ ok report
      → IsRun machine report
  verified-IsRun written state before cases (err error) report applicable gate_open h =
      absurd (failed-raises written [] state error report h)
  verified-IsRun written state before cases (ok done) report applicable gate_open h =
      let running = record state { status = "executing"; catalog_cases = some (length cases) } in
      executing-IsRun written running before cases (machine.save running) report applicable
        gate_open h

  gate-IsRun :
      (written : List State) (state : State) (before : Snapshot) (cases : List Case) (closed : Bool)
      (report : Report)
      → any (λ case. case.skip_reason == "") cases ≡ true
      → any (λ (row : BuildRow). not (row.status == "executed")) (all_rows machine) ≡ closed
      → (gate machine written state before cases closed).outcome ≡ ok report
      → IsRun machine report
  gate-IsRun written state before cases true report applicable e h =
      absurd (failed-raises written [] state gate_error report h)
  gate-IsRun written state before cases false report applicable e h =
      verified-IsRun written state before cases
        (verify_sources machine.builds before_execution (artifacts_with machine true)
          (artifacts_with machine false))
        report applicable e h

  prepare-applicable :
      (suite_dir : Option String) (offline : Bool) (before : Snapshot) (cases : List Case)
      → prepare machine suite_dir offline ≡ ok (before, cases)
      → any (λ case. case.skip_reason == "") cases ≡ true
  unfolding prepare
  prepare-applicable suite_dir offline before cases h =
      let (suite, e1, h1) = >>=-eq-ok (prepare_suite machine.suite suite_dir offline) _ h in
      let (snapshot, e2, h2) = >>=-eq-ok (machine.suite.snapshot preparing) _ h1 in
      let (found, e3, h3) =
        >>=-eq-ok (load_catalog machine.runs.disk machine.site machine.parse suite) _ h2 in
      let (some_applicable, h4) =
        refused (not (any (λ case. case.skip_reason == "") found)) _ _ (before, cases) h3 in
      let (paths, e5, h5) = >>=-eq-ok (manifest_paths machine.suite found) _ h4 in
      let (tools, e6, h6) = >>=-eq-ok machine.toolchain _ h5 in
      let same =
        ap (λ (p : Snapshot × List Case). p.1) (ok_inj (snapshot, found) (before, cases) h6) in
      subst (λ c. any (λ case. case.skip_reason == "") c ≡ true) same
        (ground (arith, some_applicable))

  prepared-IsRun :
      (suite_dir : Option String) (offline : Bool) (start : Outcome (Snapshot × List Case))
      (report : Report)
      → prepare machine suite_dir offline ≡ start
      → (prepared machine start).outcome ≡ ok report
      → IsRun machine report
  prepared-IsRun suite_dir offline (err error) report e h =
      absurd (failed-raises (initial ∷ []) [] initial error report h)
  prepared-IsRun suite_dir offline (ok (before, cases)) report e h =
      gate-IsRun (initial ∷ []) (record initial { builds = all_rows machine }) before cases
        (any (λ (row : BuildRow). not (row.status == "executed")) (all_rows machine)) report
        (prepare-applicable suite_dir offline before cases e) refl h

  started-IsRun :
      (suite_dir : Option String) (offline : Bool) (result : Outcome (Unit {0})) (report : Report)
      → (started machine suite_dir offline result).outcome ≡ ok report
      → IsRun machine report
  started-IsRun suite_dir offline (err error) report h =
      absurd (failed-raises [] [] initial error report h)
  started-IsRun suite_dir offline (ok done) report h =
      prepared-IsRun suite_dir offline (prepare machine suite_dir offline) report refl h

  opened-IsRun :
      (suite_dir : Option String) (offline : Bool) (result : Outcome (Unit {0})) (report : Report)
      → (opened machine suite_dir offline result).outcome ≡ ok report
      → IsRun machine report
  opened-IsRun suite_dir offline (err error) report h = cc
  opened-IsRun suite_dir offline (ok done) report h =
      started-IsRun suite_dir offline (machine.save initial) report h

  pub run_lane-IsRun :
      (suite_dir : Option String) (offline : Bool) (report : Report)
      → (run_lane machine suite_dir offline).outcome ≡ ok report
      → IsRun machine report
  unfolding run_lane
  run_lane-IsRun suite_dir offline report h =
      opened-IsRun suite_dir offline (make machine suite_dir) report h
