-- ===== src/Dual/Comparison/Complete.antt =====
-- The results of a run of both implementations on a catalog are compared without an error.
use mathlib.Core.List.{append-nil}
use xpact.Prelude.{
  map-append, ℕ, suc, String, ◌≡◌, refl, sym, ap, ◌∙◌, subst, Bool, true, some, List, [], ◌∷◌, ◌++◌,
  map, length, nat_eq, inl, inr, All, arith, eq_iff,
}
use xpact.Prelude.Outcome.{Outcome, ok}
use xpact.Conformance.Case.{Case, Result}
use xpact.Conformance.Runner.{Disk, Execution, Options}
use xpact.Conformance.Runner.Coherent.{run_case-IsCoherent}
use xpact.Conformance.Profile.Definite.{expectation-definite}
use xpact.Conformance.Catalog.{Element, Site, load_catalog}
use xpact.Conformance.Catalog.Sound.{DistinctIds, IsFound, All-IsFound, load_catalog-IsSound}
use xpact.Dual.Comparison.{
  Key, key_of, indexed, distinct_count, expected_keys, same_set, gc_policies, Row, row_of, compare,
  comparison_rows, run_cases,
}
use xpact.Dual.Comparison.Checked.{IsDefinite, check_row-eq-ok}
use xpact.Dual.Comparison.Table.{
  Answers, IsIndexed, IsIndexed-Answers, indexed-foreign, indexed-first, indexed-second,
  keys-Answers, DistinctKeys, DistinctKeys-expected, distinct_count-eq-length, same_set_refl,
}

length-map : {A B : Type 0} → (f : A → B) (xs : List A) → length (map f xs) ≡ length xs
length-map f [] = refl
length-map f (x ∷ xs) = ap suc (length-map f xs)

nat_eq_refl : (n : ℕ) → nat_eq n n ≡ true
nat_eq_refl n = ground arith

-- The table that the results of both make has exactly the catalog's keys.
keys_of_both :
    (cases : List Case) (own core : List Result)
    → Answers "xpact" cases own
    → Answers "xpact-core" cases core
    → map key_of (own ++ core) ≡ expected_keys gc_policies cases
unfolding expected_keys
keys_of_both cases own core a b =
    map-append key_of own core
    ∙ rw (keys-Answers "xpact" cases own a, keys-Answers "xpact-core" cases core b)
        (ap (λ rest. map (λ case. ("xpact", case.id)) cases ++ rest)
          (sym (append-nil (map {A = Case} {B = Key} (λ case. ("xpact-core", case.id)) cases))))

-- A row pairs the case with a result of each implementation.
abbrev pub IsPaired : List Result → Case → Row → Type 0
IsPaired results case row =
    (own : Result) × (core : Result) × (indexed "xpact" case.id results ≡ some own)
    × (indexed "xpact-core" case.id results ≡ some core)
    × (row ≡ row_of case own core)

abbrev pub ArePaired : List Result → List Case → List Row → Type 0
ArePaired results [] [] = Unit
ArePaired results [] (row ∷ rows) = ⊥
ArePaired results (case ∷ cases) [] = ⊥
ArePaired results (case ∷ cases) (row ∷ rows) =
    IsPaired results case row × ArePaired results cases rows

compare-paired :
    (results : List Result) (cases : List Case)
    → All IsDefinite cases
    → All (IsIndexed "xpact" results) cases
    → All (IsIndexed "xpact-core" results) cases
    → (rows : List Row) × (compare cases results ≡ ok rows) × ArePaired results cases rows
unfolding compare
compare-paired results [] d a b = ([], refl, tt)
compare-paired results (case ∷ cases) d a b =
    let (own, own_there, own_coherent) = a.0 in
    let (core, core_there, core_coherent) = b.0 in
    let (rows, compared, paired) = compare-paired results cases d.1 a.1 b.1 in
    (
      row_of case own core ∷ rows,
      rw
          (
            own_there,
            core_there,
            check_row-eq-ok case "xpact" own d.0 own_coherent,
            check_row-eq-ok case "xpact-core" core d.0 core_coherent,
            compared,
          )
          refl,
      ((own, core, own_there, core_there, refl), paired),
    )

own-IsIndexed :
    (some_cases cases : List Case) (own core : List Result)
    → Answers "xpact-core" cases core
    → All (IsIndexed "xpact" own) some_cases
    → All (IsIndexed "xpact" (own ++ core)) some_cases
own-IsIndexed [] cases own core b h = tt
own-IsIndexed (case ∷ some_cases) cases own core b h =
    let (row, there, coherent) = h.0 in
    (
      (
        row,
        indexed-first "xpact" case.id own core
              (indexed-foreign "xpact-core" "xpact" case.id cases core refl b)
            ∙ there,
        coherent,
      ),
      own-IsIndexed some_cases cases own core b h.1,
    )

core-IsIndexed :
    (cases : List Case) (own core : List Result)
    → All (IsIndexed "xpact-core" core) cases
    → All (IsIndexed "xpact-core" (own ++ core)) cases
core-IsIndexed [] own core h = tt
core-IsIndexed (case ∷ cases) own core h =
    let (row, there, coherent) = h.0 in
    (
      (row, indexed-second "xpact-core" case.id own core row there, coherent),
      core-IsIndexed cases own core h.1,
    )

pub comparison_rows-Answers :
    (cases : List Case) (own core : List Result)
    → DistinctIds cases
    → All IsDefinite cases
    → Answers "xpact" cases own
    → Answers "xpact-core" cases core
    → (rows : List Row) × (comparison_rows cases (own ++ core) ≡ ok rows)
      × ArePaired (own ++ core) cases rows
unfolding comparison_rows
comparison_rows-Answers cases own core d definite a b =
    let (rows, compared, paired) =
      compare-paired (own ++ core) cases definite
        (own-IsIndexed cases cases own core b (IsIndexed-Answers "xpact" cases own d a))
        (core-IsIndexed cases own core (IsIndexed-Answers "xpact-core" cases core d b)) in
    let keys = keys_of_both cases own core a b in
    let counted : distinct_count (map key_of (own ++ core)) ≡ length (own ++ core) =
      distinct_count-eq-length (map key_of (own ++ core))
        (subst DistinctKeys (sym keys) (DistinctKeys-expected cases d))
      ∙ length-map key_of (own ++ core) in
    let same : same_set (map key_of (own ++ core)) (expected_keys gc_policies cases) ≡ true =
      subst (λ k. same_set (map key_of (own ++ core)) k ≡ true) keys
        (same_set_refl (map key_of (own ++ core))) in
    (rows, rw (counted, nat_eq_refl (length (own ++ core)), same) compared, paired)

module _ (disk : Disk) (launch : List String → Execution) (clock : List String → ℕ)
    (options : ℕ → Case → Options) where
  Answers-run_cases :
      (engine executable : String) (index : ℕ) (cases : List Case)
      → Answers engine cases (run_cases disk launch clock options engine executable index cases)
  unfolding run_cases
  Answers-run_cases engine executable index [] = tt
  Answers-run_cases engine executable index (case ∷ cases) = (
    run_case-IsCoherent disk launch clock case engine executable (options index case),
    Answers-run_cases engine executable (suc index) cases,
  )

module _ (disk : Disk) (site : Site) (root : String) where
  IsDefinite-case : (case : Case) → IsFound disk site root case → IsDefinite case
  IsDefinite-case case (base, attributes, made) same =
      let catalogued =
        expectation-definite attributes case.catalog_expected case.skip_reason made.catalogued in
      elim made.expected [
        | inl (kept, plain) ↦ catalogued (sym kept ∙ same)
        | inr (this, applies, accepts, reason) ↦
            ground (arith, accepts, same, eq_iff "ACCEPT" "ANY")
      ]

  IsDefinite-cases : (cases : List Case) → All (IsFound disk site root) cases → All IsDefinite cases
  IsDefinite-cases [] h = tt
  IsDefinite-cases (case ∷ cases) h = (IsDefinite-case case h.0, IsDefinite-cases cases h.1)

module _ (disk : Disk) (site : Site) (parse : Bool → String → Outcome Element)
    (launch : List String → Execution) (clock : List String → ℕ) (options : ℕ → Case → Options)
    (suite_dir : String) (cases : List Case)
    (loaded : load_catalog disk site parse suite_dir ≡ ok cases) where
  -- The results that both implementations have on the cases of a catalog that loads pass every
  -- check of `comparison_rows`, whatever the processes do: there is one row for each case, in the
  -- order of the catalog, made of the case and of the result of each implementation.
  pub comparison_rows-run_cases :
      (own_path core_path : String)
      → let own = run_cases disk launch clock options "xpact" own_path 1 cases in
        let core = run_cases disk launch clock options "xpact-core" core_path 1 cases in
        (rows : List Row) × (comparison_rows cases (own ++ core) ≡ ok rows)
        × ArePaired (own ++ core) cases rows
  comparison_rows-run_cases own_path core_path =
      let (distinct, tree, parsed, made) =
        load_catalog-IsSound disk site parse suite_dir cases loaded in
      let found = All-IsFound disk site (disk.resolve suite_dir) _ cases made in
      comparison_rows-Answers cases (run_cases disk launch clock options "xpact" own_path 1 cases)
        (run_cases disk launch clock options "xpact-core" core_path 1 cases) distinct
        (IsDefinite-cases disk site (disk.resolve suite_dir) cases found)
        (Answers-run_cases disk launch clock options "xpact" own_path 1 cases)
        (Answers-run_cases disk launch clock options "xpact-core" core_path 1 cases)
