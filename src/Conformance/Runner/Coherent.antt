-- ===== src/Conformance/Runner/Coherent.antt =====
-- How the fields of a result of `run_case` hang together, on every branch.
use xpact.Prelude.{
  ℕ, String, ◌≡◌, ◌≢◌, ◌⊎◌, refl, inl, inr, true, false, Option, none, some, List, [], ◌∷◌, arith,
  eq_iff, ◌==◌, contains, Bool-cases,
}
use xpact.Prelude.Int.{ℤ, pos, negsuc}
use xpact.Conformance.Case.{Case, Result}
use xpact.Conformance.Runner.{
  Disk, Execution, completed, timed_out, not_started, Options, or_text, initial, fail_early,
  outside, command_line, meets, conclude, judge, verdict, run_case,
}

-- The verdict of a process and the exit code that goes with it.
abbrev pub IsVerdict : String → Option ℤ → Type 0
IsVerdict actual code =
    ((actual ≡ "ACCEPT") × (code ≡ some (pos 0))) ⊎ ((actual ≡ "REJECT") × (code ≡ some (pos 1)))

abbrev pub breakdowns : List String
breakdowns = "not-run" ∷ "process-error" ∷ "timeout" ∷ []

-- A case that was not skipped has passed, failed, or ended in an error without a verdict.
abbrev pub IsJudged : String → Result → Type 0
IsJudged expected r =
    ((r.status ≡ "passed") × (meets expected r.actual ≡ true) × IsVerdict r.actual r.exit_code)
    ⊎ ((r.status ≡ "failed") × (meets expected r.actual ≡ false) × IsVerdict r.actual r.exit_code)
    ⊎ ((r.status ≡ "error") × (contains breakdowns r.actual ≡ true))

verdict-IsVerdict :
    (markers : List String) (code : ℤ) (v : String)
    → verdict markers code ≡ some v
    → IsVerdict v (some code)
unfolding verdict
verdict-IsVerdict markers (pos n) v h = ground arith
verdict-IsVerdict markers (negsuc n) v h = ground arith

conclude-IsJudged :
    (case : Case) (r : Result) (code : ℤ) (o : Option String)
    → ((v : String) → o ≡ some v → IsVerdict v (some code))
    → r.exit_code ≡ some code
    → IsJudged case.expected (conclude case r code o)
unfolding conclude
conclude-IsJudged case r code none v h = inr (inr (refl, refl))
conclude-IsJudged case r code (some actual) v h = elim (Bool-cases (meets case.expected actual)) [
  | inl met ↦ rw met (inl (refl, met, rw h (v actual refl)))
  | inr unmet ↦ rw unmet (inr (inl (refl, unmet, rw h (v actual refl))))
]

judge-IsJudged :
    (case : Case) (r : Result) (timeout : String) (x : Execution)
    → IsJudged case.expected (judge case r timeout x)
unfolding judge
judge-IsJudged case r timeout (completed code out err) =
    conclude-IsJudged case _ code _ (verdict-IsVerdict _ code) refl
judge-IsJudged case r timeout (timed_out out err) = inr (inr (refl, refl))
judge-IsJudged case r timeout (not_started message) = inr (inr (refl, refl))

-- What a result copies from its case.
pub record IsCopied (case : Case) (engine : String) (r : Result) : Type 0 where
  pub engine_kept : r.engine ≡ engine
  pub id_kept : r.case_id ≡ case.id
  pub kind_kept : r.kind ≡ case.kind
  pub expected_kept : r.expected ≡ case.expected
  pub catalog_kept : r.catalog_expected ≡ or_text case.catalog_expected case.expected
  pub adjustment_kept : r.expectation_adjustment ≡ case.expectation_adjustment
  pub lane_kept : r.lane ≡ case.lane
  pub not_known : r.known ≡ ""

-- A case with a reason to skip it was not run.
abbrev pub WasSkipped : Case → Result → Type 0
WasSkipped case r =
    (case.skip_reason ≢ "")
    × (r.status ≡ "skipped")
    × (r.actual ≡ "not-run")
    × (r.message ≡ case.skip_reason)

pub record IsCoherent (case : Case) (engine : String) (r : Result) : Type 0 where
  pub copied : IsCopied case engine r
  pub outcome : WasSkipped case r ⊎ ((case.skip_reason ≡ "") × IsJudged case.expected r)

copied : (case : Case) (engine : String) → IsCopied case engine (initial case engine)
copied case engine = ground arith

conclude-IsCopied :
    (case : Case) (engine : String) (r : Result) (code : ℤ) (o : Option String)
    → IsCopied case engine r
    → IsCopied case engine (conclude case r code o)
unfolding conclude
conclude-IsCopied case engine r code none h = ground arith
conclude-IsCopied case engine r code (some v) h = ground arith

judge-IsCopied :
    (case : Case) (engine : String) (r : Result) (timeout : String) (x : Execution)
    → IsCopied case engine r
    → IsCopied case engine (judge case r timeout x)
unfolding judge
judge-IsCopied case engine r timeout (completed code out err) h =
    conclude-IsCopied case engine _ code _ (assumption)
judge-IsCopied case engine r timeout (timed_out out err) h = assumption
judge-IsCopied case engine r timeout (not_started message) h = assumption

early-IsCoherent :
    (case : Case) (engine message : String)
    → case.skip_reason ≡ ""
    → IsCoherent case engine (fail_early (initial case engine) message).0
early-IsCoherent case engine message run = record {
  copied = assumption (copied case engine);
  outcome = inr (run, inr (inr (refl, refl)));
}

module _ (disk : Disk) (launch : List String → Execution) (clock : List String → ℕ) (case : Case)
    (engine executable : String) (options : Options) where
  -- On every branch of `run_case` the result names its case, its engine and both expected verdicts
  -- unchanged and carries no known-failure mark. A skipped case is reported as skipped with its
  -- reason and was not run. Any other has passed or failed with a verdict that fits its exit code
  -- and by the expected verdict, or is an error with no verdict.
  pub run_case-IsCoherent :
      IsCoherent case engine (run_case disk launch clock case engine executable options).0
  unfolding run_case
  run_case-IsCoherent = elim (Bool-cases (case.skip_reason == "")) [
    | inr skip ↦ rw skip (record {
      copied = assumption (copied case engine);
      outcome = inl ((λ none. ground (arith, skip, eq_iff case.skip_reason "")), refl, refl, refl);
    })
    | inl run ↦
        let applies = (eq_iff case.skip_reason "").0 run in
        rw run (elim (Bool-cases (disk.is_file case.path)) [
          | inr missing ↦ rw missing (early-IsCoherent case engine _ applies)
          | inl there ↦ rw there (elim (Bool-cases (outside disk case options.suite_root)) [
            | inl out ↦ rw out (early-IsCoherent case engine _ applies)
            | inr within ↦ rw within (record {
              copied = assumption (
                  judge-IsCopied case engine _ options.timeout
                    (launch (command_line disk case executable options)) (copied case engine));
              outcome = inr (
                applies,
                judge-IsJudged case (initial case engine) options.timeout
                    (launch (command_line disk case executable options)),
              );
            })
          ])
        ])
  ]
