-- ===== src/Conformance/Main/Skips.antt =====
-- Which cases the loop leaves out.
use xpact.Prelude.{
  ◌∙◌, ℕ, String, ◌≡◌, refl, Bool, false, not, ◌&&◌, List, [], ◌∷◌, map, arith, eq_iff, ◌==◌, ◌++◌,
  map-append, inl, inr, Bool-cases,
}
use xpact.Conformance.Case.{Case, Result}
use xpact.Conformance.Runner.{Disk, Execution}
use xpact.Conformance.Runner.Coherent.{IsCoherent, IsJudged}
use xpact.Conformance.Main.{Arguments, Engines, Plan, run_one, run_engines}
use xpact.Conformance.Main.Matrix.{judged_case, judged_case_id, run_one-IsCoherent}

abbrev skipped : Result → Bool
skipped row = row.status == "skipped"

abbrev out_of_profile : Case → Bool
out_of_profile case = not (case.skip_reason == "")

judged-not_skipped :
    (expected : String) (row : Result) → IsJudged expected row → skipped row ≡ false
judged-not_skipped expected row (inl (passed, met, code)) = rw passed refl
judged-not_skipped expected row (inr (inl (failed, unmet, code))) = rw failed refl
judged-not_skipped expected row (inr (inr (broken, rest))) = rw broken refl

coherent-skipped :
    (case : Case) (engine : String) (row : Result)
    → IsCoherent case engine row
    → skipped row ≡ out_of_profile case
coherent-skipped case engine row h = elim h.outcome [
  | inl (reason, skip, actual, message) ↦
      rw skip (ground (arith, eq_iff case.skip_reason "", reason))
  | inr (applies, judged) ↦
      judged-not_skipped case.expected row judged
      ∙ ground (arith, eq_iff case.skip_reason "", applies)
]

judged_case-out_of_profile :
    (arguments : Arguments) (case : Case)
    → out_of_profile (judged_case arguments case) ≡ (not arguments.all_cases && out_of_profile case)
judged_case-out_of_profile arguments case =
    elim (Bool-cases (arguments.all_cases && not (case.skip_reason == ""))) [
      | inl laned ↦ rw laned (ground (arith, laned))
      | inr plain ↦ rw plain (ground (arith, plain))
    ]

-- The engine, the case's id and whether it is skipped.
abbrev pub marked : Result → String × String × Bool
marked row = (row.engine, row.case_id, skipped row)

-- What the loop is to skip, for each engine and case.
abbrev pub skips : Bool → Engines → List Case → List (String × String × Bool)
skips all_cases [] cases = []
skips all_cases ((name, path) ∷ engines) cases =
    map (λ case. (name, case.id, not all_cases && out_of_profile case)) cases
    ++ skips all_cases engines cases

module _ (disk : Disk) (launch : List String → Execution) (clock : List String → ℕ)
    (arguments : Arguments) (plan : Plan) where
  marked-run_one :
      (engine executable : String) (case : Case)
      → marked (run_one disk launch clock arguments plan engine executable case)
        ≡ (engine, case.id, not arguments.all_cases && out_of_profile case)
  marked-run_one engine executable case =
      let coherent = run_one-IsCoherent disk launch clock arguments plan engine executable case in
      rw
        (
          coherent.copied.engine_kept,
          coherent.copied.id_kept,
          judged_case_id disk launch clock arguments plan case,
          coherent-skipped (judged_case arguments case) engine
              (run_one disk launch clock arguments plan engine executable case) coherent,
          judged_case-out_of_profile arguments case,
        )
        refl

  marked-engine :
      (engine executable : String) (cases : List Case)
      → map marked (map (run_one disk launch clock arguments plan engine executable) cases)
        ≡ map (λ case. (engine, case.id, not arguments.all_cases && out_of_profile case)) cases
  marked-engine engine executable [] = refl
  marked-engine engine executable (case ∷ cases) =
      rw (marked-run_one engine executable case, marked-engine engine executable cases)

  -- For every engine in turn, and every case of the catalog in turn, the result that the loop has
  -- for this engine and this case is skipped exactly if the case is outside the profile and
  -- `--all-cases` is not given.
  pub run_engines-skipped :
      (engines : Engines)
      → map marked (run_engines disk launch clock arguments plan engines)
        ≡ skips arguments.all_cases engines plan.cases
  unfolding run_engines
  run_engines-skipped [] = refl
  run_engines-skipped ((engine, executable) ∷ engines) =
      rw
        (map-append marked, marked-engine engine executable plan.cases, run_engines-skipped engines)
