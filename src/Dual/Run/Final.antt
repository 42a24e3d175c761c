-- ===== src/Dual/Run/Final.antt =====
-- How a run of `run_lane` can end, and what run.json says then.
use xpact.Prelude.{
  String, ◌≡◌, ◌⊎◌, inl, inr, refl, Bool, true, false, Option, none, some, List, [], ◌∷◌, ◌++◌, any,
  contains, length, Bool-cases,
}
use xpact.Prelude.Outcome.{Outcome, ok, err, Error, lane_error, message_of}
use xpact.Conformance.Case.{Case}
use xpact.Dual.Build.{before_execution, verify_sources}
use xpact.Dual.Report.{Report}
use xpact.Dual.Lane.{Snapshot, State, Ended}
use xpact.Dual.Run.{
  Machine, report_files, clear_reports, swept, initial, prepare, all_rows, artifacts_with, execute,
  publish_reports, said, failed, concluded, publishing, completed, executing, verified, gate,
  prepared, started, make, opened, run_lane,
}

-- The last content of run.json is `final`.
abbrev pub EndsWith : List State → (State → Type 0) → Type 0
EndsWith written P =
    (before : List State) × (last : State) × (written ≡ before ++ (last ∷ [])) × P last

-- No file of the directory is a report.
abbrev pub NoReports : List String → Type 0
NoReports files = any (contains report_files) files ≡ false

NoReports-clear_reports : (files : List String) → NoReports (clear_reports files)
NoReports-clear_reports [] = refl
NoReports-clear_reports (file ∷ files) = elim (Bool-cases (contains report_files file)) [
  | inl report ↦ rw report (NoReports-clear_reports files)
  | inr other ↦ rw (other, other) (NoReports-clear_reports files)
]

swept-ok :
    (written : List String × Outcome (Unit {0})) (files : List String)
    → swept written ≡ (files, ok tt)
    → written ≡ (files, ok tt)
swept-ok (left, err error) files h = cc
swept-ok (left, ok done) files h = h

module _ (machine : Machine) where
  -- No report is left, and run.json says so with the message; or saying so is what raised.
  abbrev pub IsFailed : Ended → Error → Type 0
  IsFailed ended error =
      NoReports ended.published
      × (EndsWith ended.written
            (λ last. (last.status ≡ "failed") × (last.error ≡ some (message_of error)))
          ⊎ ((last : State) × (last.status ≡ "failed") × (machine.save last ≡ err error)))

  -- The end of a run that got past the checks and has made its directory.
  abbrev pub IsOver : Ended → Outcome Report → Type 0
  IsOver ended (ok report) =
      (machine.write_reports report ≡ (ended.published, ok tt))
      × EndsWith ended.written (λ last. (last.status ≡ report.status) × (last.error ≡ none))
  IsOver ended (err error) = IsFailed ended error

  said-IsOver :
      (written : List State) (files : List String) (state : State) (error : Error)
      (result : Outcome (Unit {0}))
      → NoReports files
      → state.status ≡ "failed"
      → state.error ≡ some (message_of error)
      → machine.save state ≡ result
      → IsOver
          (said machine written files state error result)
          (said machine written files state error result).outcome
  said-IsOver written files state error (err other) clean status message h =
      (clean, inr (state, status, h))
  said-IsOver written files state error (ok done) clean status message h =
      (clean, inl (written, state, refl, (status, message)))

  failed-IsOver :
      (written : List State) (files : List String) (state : State) (error : Error)
      → IsOver
          (failed machine written files state error)
          (failed machine written files state error).outcome
  failed-IsOver written files state error =
      let final = record state { status = "failed"; error = some (message_of error) } in
      said-IsOver written (clear_reports files) final error (machine.save final)
        (NoReports-clear_reports files) refl refl refl

  concluded-IsOver :
      (written : List State) (files : List String) (state : State) (report : Report)
      (result : Outcome (Unit {0}))
      → machine.write_reports report ≡ (files, ok tt)
      → state.status ≡ report.status
      → state.error ≡ none
      → IsOver
          (concluded machine written files state report result)
          (concluded machine written files state report result).outcome
  concluded-IsOver written files state report (err error) there status quiet =
      failed-IsOver written files state error
  concluded-IsOver written files state report (ok done) there status quiet =
      (there, (written, state, refl, (status, quiet)))

  publishing-IsOver :
      (written : List State) (state : State) (report : Report)
      (result : List String × Outcome (Unit {0}))
      → publish_reports machine report ≡ result
      → state.error ≡ none
      → IsOver
          (publishing machine written state report result)
          (publishing machine written state report result).outcome
  publishing-IsOver written state report (files, err error) h quiet =
      failed-IsOver written files state error
  publishing-IsOver written state report (files, ok done) h quiet =
      let final = record state { status = report.status } in
      concluded-IsOver written files final report (machine.save final)
        (swept-ok (machine.write_reports report) files h) refl quiet

  completed-IsOver :
      (written : List State) (state : State) (result : Outcome Report)
      → state.error ≡ none
      → IsOver
          (completed machine written state result)
          (completed machine written state result).outcome
  completed-IsOver written state (err error) quiet = failed-IsOver written [] state error
  completed-IsOver written state (ok report) quiet =
      publishing-IsOver written state report (publish_reports machine report) refl quiet

  executing-IsOver :
      (written : List State) (state : State) (before : Snapshot) (cases : List Case)
      (result : Outcome (Unit {0}))
      → state.error ≡ none
      → IsOver
          (executing machine written state before cases result)
          (executing machine written state before cases result).outcome
  executing-IsOver written state before cases (err error) quiet =
      failed-IsOver written [] state error
  executing-IsOver written state before cases (ok done) quiet =
      completed-IsOver (written ++ (state ∷ [])) state
        (execute machine (artifacts_with machine true) (artifacts_with machine false)
          (all_rows machine) before cases)
        quiet

  verified-IsOver :
      (written : List State) (state : State) (before : Snapshot) (cases : List Case)
      (sources : Outcome (Unit {0}))
      → state.error ≡ none
      → IsOver
          (verified machine written state before cases sources)
          (verified machine written state before cases sources).outcome
  verified-IsOver written state before cases (err error) quiet =
      failed-IsOver written [] state error
  verified-IsOver written state before cases (ok done) quiet =
      let running = record state { status = "executing"; catalog_cases = some (length cases) } in
      executing-IsOver written running before cases (machine.save running) quiet

  gate-IsOver :
      (written : List State) (state : State) (before : Snapshot) (cases : List Case) (closed : Bool)
      → state.error ≡ none
      → IsOver
          (gate machine written state before cases closed)
          (gate machine written state before cases closed).outcome
  gate-IsOver written state before cases true quiet =
      failed-IsOver written [] state (lane_error "W3C build/identity gate failed; see run.json")
  gate-IsOver written state before cases false quiet =
      verified-IsOver written state before cases
        (verify_sources machine.builds before_execution (artifacts_with machine true)
          (artifacts_with machine false))
        quiet

  prepared-IsOver :
      (start : Outcome (Snapshot × List Case))
      → IsOver (prepared machine start) (prepared machine start).outcome
  prepared-IsOver (err error) = failed-IsOver (initial ∷ []) [] initial error
  prepared-IsOver (ok (before, cases)) =
      gate-IsOver (initial ∷ []) (record initial { builds = all_rows machine }) before cases _ refl

  started-IsOver :
      (suite_dir : Option String) (offline : Bool) (result : Outcome (Unit {0}))
      → IsOver
          (started machine suite_dir offline result)
          (started machine suite_dir offline result).outcome
  started-IsOver suite_dir offline (err error) = failed-IsOver [] [] initial error
  started-IsOver suite_dir offline (ok done) = prepared-IsOver (prepare machine suite_dir offline)

  -- What a run leaves, by what the checks and the making of its directory give.
  abbrev pub IsEnd : Ended → Outcome (Unit {0}) → Type 0
  IsEnd ended (err error) =
      (ended.outcome ≡ err error) × (ended.written ≡ []) × (ended.published ≡ machine.existing)
  IsEnd ended (ok done) = IsOver ended ended.outcome

  opened-IsEnd :
      (suite_dir : Option String) (offline : Bool) (result : Outcome (Unit {0}))
      → IsEnd (opened machine suite_dir offline result) result
  opened-IsEnd suite_dir offline (err error) = (refl, refl, refl)
  opened-IsEnd suite_dir offline (ok done) = started-IsOver suite_dir offline (machine.save initial)

  module _ (suite_dir : Option String) (offline : Bool) where
    -- A run that the checks of the timeout and of the directories refuse, or whose directory cannot
    -- be made, raises that error, writes nothing and leaves the files that were there. However any
    -- other run ends, run.json says so last: a run that returns has written all of its reports and
    -- run.json has the report's status and no error; a run that raises leaves no report file, and
    -- run.json says failed, with the message, unless writing just that is what raised.
    pub run_lane-IsEnd : IsEnd (run_lane machine suite_dir offline) (make machine suite_dir)
    unfolding run_lane
    run_lane-IsEnd = opened-IsEnd suite_dir offline (make machine suite_dir)
