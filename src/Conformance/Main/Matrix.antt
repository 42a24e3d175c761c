-- ===== src/Conformance/Main/Matrix.antt =====
-- The loop over engines and cases: one result for each pair, in order, and none twice.
use xpact.Prelude.{
  map-append, ℕ, String, ◌≡◌, refl, sym, ap, subst, ◌∙◌, Bool, true, false, not, ◌&&◌, List, [],
  ◌∷◌, ◌++◌, map, arith, eq_iff, ◌==◌, any, any-append, contains, inl, inr, Bool-cases,
  if◌then◌else◌,
}
use xpact.Conformance.Case.{Case, Result}
use xpact.Conformance.Runner.{Disk, Execution}
use xpact.Conformance.Runner.Coherent.{IsCoherent, run_case-IsCoherent}
use xpact.Conformance.Known.Lookup.{DistinctCases, same_case}
use xpact.Conformance.Catalog.Sound.{DistinctIds}
use xpact.Conformance.Main.{Arguments, Engines, Plan, names_of, in_lane, run_one, run_engines}

-- The case as the loop runs it.
abbrev pub judged_case : Arguments → Case → Case
judged_case arguments case =
    if arguments.all_cases && not (case.skip_reason == "") then in_lane case else case

abbrev pub DistinctNames : Engines → Type 0
DistinctNames [] = Unit
DistinctNames ((name, path) ∷ engines) =
    (contains (names_of engines) name ≡ false) × DistinctNames engines

-- What holds of both branches.
either : (P : Result → Type 0) (test : Bool) (a b : Result) → P a → P b → P (if test then a else b)
either P true a b h k = h
either P false a b h k = k

-- The engine and the case that a result is about.
abbrev pub key : Result → String × String
key row = (row.engine, row.case_id)

abbrev pub pairs : Engines → List Case → List (String × String)
pairs [] cases = []
pairs ((name, path) ∷ engines) cases = map (λ case. (name, case.id)) cases ++ pairs engines cases

pub DistinctNames-snoc :
    (engines : Engines) (name path : String)
    → DistinctNames engines
    → contains (names_of engines) name ≡ false
    → DistinctNames (engines ++ ((name, path) ∷ []))
DistinctNames-snoc [] name path d h = (refl, tt)
DistinctNames-snoc ((other, place) ∷ engines) name path d h = (
  rw (map-append {A = String × String} (λ entry. entry.0), any-append)
      (ground (arith, d.0, h, eq_iff name other, eq_iff other name)),
  DistinctNames-snoc engines name path d.1 (ground (arith, h)),
)

abbrev same_pair : String × String → String × String → Bool
same_pair a b = a.0 == b.0 && a.1 == b.1

abbrev DistinctKeys : List (String × String) → Type 0
DistinctKeys [] = Unit
DistinctKeys (k ∷ ks) = (any (same_pair k) ks ≡ false) × DistinctKeys ks

any-key :
    (row : Result) (rows : List Result)
    → any (same_pair (key row)) (map key rows) ≡ any (same_case row) rows
any-key row [] = refl
any-key row (other ∷ rows) = rw (any-key row rows)

DistinctCases-of_keys : (rows : List Result) → DistinctKeys (map key rows) → DistinctCases rows
DistinctCases-of_keys [] h = tt
DistinctCases-of_keys (row ∷ rows) h =
    (sym (any-key row rows) ∙ h.0, DistinctCases-of_keys rows h.1)

-- Another engine's results do not meet the key, nor do the same engine's other cases.
any-other_engine :
    (name id other : String) (cases : List Case)
    → (other == name) ≡ false
    → any (same_pair (name, id)) (map (λ case. (other, case.id)) cases) ≡ false
any-other_engine name id other [] h = refl
any-other_engine name id other (case ∷ cases) h =
    ground (arith, any-other_engine name id other cases h, eq_iff name other, eq_iff other name)

any-pairs :
    (name id : String) (engines : Engines) (cases : List Case)
    → contains (names_of engines) name ≡ false
    → any (same_pair (name, id)) (pairs engines cases) ≡ false
any-pairs name id [] cases h = refl
any-pairs name id ((other, path) ∷ engines) cases h =
    rw
      (
        any-append,
        any-other_engine name id other cases
            (ground (arith, h, eq_iff name other, eq_iff other name)),
      )
      (any-pairs name id engines cases (ground (arith, h)))

any-same_engine :
    (name id : String) (cases : List Case)
    → any (λ other. id == other.id) cases ≡ false
    → any (same_pair (name, id)) (map (λ case. (name, case.id)) cases) ≡ false
any-same_engine name id [] h = refl
any-same_engine name id (case ∷ cases) h = ground (arith, any-same_engine name id cases)

one_engine :
    (name path : String) (engines : Engines) (some_cases cases : List Case)
    → contains (names_of engines) name ≡ false
    → DistinctIds some_cases
    → DistinctKeys (pairs engines cases)
    → DistinctKeys (map (λ case. (name, case.id)) some_cases ++ pairs engines cases)
one_engine name path engines [] cases fresh ids rest = rest
one_engine name path engines (case ∷ some_cases) cases fresh ids rest = (
  rw (any-append, any-same_engine name case.id some_cases ids.0)
      (any-pairs name case.id engines cases fresh),
  one_engine name path engines some_cases cases fresh ids.1 rest,
)

pairs-DistinctKeys :
    (engines : Engines) (cases : List Case)
    → DistinctNames engines
    → DistinctIds cases
    → DistinctKeys (pairs engines cases)
pairs-DistinctKeys [] cases names ids = tt
pairs-DistinctKeys ((name, path) ∷ engines) cases names ids =
    one_engine name path engines cases cases names.0 ids
      (pairs-DistinctKeys engines cases names.1 ids)

module _ (disk : Disk) (launch : List String → Execution) (clock : List String → ℕ)
    (arguments : Arguments) (plan : Plan) where
  pub run_one-IsCoherent :
      (engine executable : String) (case : Case)
      → IsCoherent
          (judged_case arguments case)
          engine
          (run_one disk launch clock arguments plan engine executable case)
  unfolding run_one
  run_one-IsCoherent engine executable case =
      elim (Bool-cases (arguments.all_cases && not (case.skip_reason == ""))) [
        | inr plain ↦ rw plain (run_case-IsCoherent disk launch clock case engine executable _)
        | inl laned ↦ rw laned (
            either (IsCoherent (in_lane case) engine) case.entities _ _
              (run_case-IsCoherent disk launch clock (in_lane case) engine _ _)
              (run_case-IsCoherent disk launch clock (in_lane case) engine _ _))
      ]

  pub judged_case_id : (case : Case) → (judged_case arguments case).id ≡ case.id
  judged_case_id case = ground arith

  run_one-key :
      (engine executable : String) (case : Case)
      → key (run_one disk launch clock arguments plan engine executable case) ≡ (engine, case.id)
  run_one-key engine executable case =
      let copied = (run_one-IsCoherent engine executable case).copied in
      rw (copied.engine_kept, copied.id_kept) (ap (λ id. (engine, id)) (judged_case_id case))

  keys_of_engine :
      (engine executable : String) (cases : List Case)
      → map key (map (run_one disk launch clock arguments plan engine executable) cases)
        ≡ map (λ case. (engine, case.id)) cases
  keys_of_engine engine executable [] = refl
  keys_of_engine engine executable (case ∷ cases) =
      rw (run_one-key engine executable case, keys_of_engine engine executable cases)

  -- The loop has one result for every engine and every case, in the order of the engines and,
  -- for each, of the catalog.
  pub run_engines-pairs :
      (engines : Engines)
      → map key (run_engines disk launch clock arguments plan engines) ≡ pairs engines plan.cases
  unfolding run_engines
  run_engines-pairs [] = refl
  run_engines-pairs ((engine, executable) ∷ engines) =
      rw (map-append key, keys_of_engine engine executable plan.cases, run_engines-pairs engines)

  -- Where the engines have different names and the cases different ids, no two results share both.
  pub run_engines-DistinctCases :
      (engines : Engines)
      → DistinctNames engines
      → DistinctIds plan.cases
      → DistinctCases (run_engines disk launch clock arguments plan engines)
  run_engines-DistinctCases engines names ids =
      DistinctCases-of_keys (run_engines disk launch clock arguments plan engines) (
        subst DistinctKeys (sym (run_engines-pairs engines))
          (pairs-DistinctKeys engines plan.cases names ids))
