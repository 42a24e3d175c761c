-- ===== src/Dual/Comparison/Table.antt =====
-- The results of both implementations as a table by engine and case.
use mathlib.Core.List.{append-nil, append_assoc}
use xpact.Prelude.{
  String, ◌≡◌, refl, subst, true, false, ◌&&◌, none, some, List, [], ◌∷◌, ◌++◌, map, ◌==◌, any,
  any-append, all, length, All, arith, eq_refl,
}
use xpact.Conformance.Case.{Case, Result}
use xpact.Conformance.Runner.Coherent.{IsCoherent}
use xpact.Conformance.Catalog.Sound.{DistinctIds}
use xpact.Dual.Comparison.{
  Key, key_of, same_key, indexed, distinct_count, expected_keys, same_set, gc_policies,
}

-- One coherent result for each case, in order.
abbrev pub Answers : String → List Case → List Result → Type 0
Answers engine [] [] = Unit
Answers engine [] (row ∷ rows) = ⊥
Answers engine (case ∷ cases) [] = ⊥
Answers engine (case ∷ cases) (row ∷ rows) = IsCoherent case engine row × Answers engine cases rows

-- The key of a coherent result.
same_key-coherent :
    (case : Case) (engine other id : String) (row : Result)
    → IsCoherent case engine row
    → same_key (other, id) (key_of row) ≡ (other == engine && id == case.id)
same_key-coherent case engine other id row h = rw (h.copied.engine_kept, h.copied.id_kept) refl

pub indexed-foreign :
    (engine other id : String) (cases : List Case) (rows : List Result)
    → (other == engine) ≡ false
    → Answers engine cases rows
    → indexed other id rows ≡ none
unfolding indexed
indexed-foreign engine other id [] [] h a = refl
indexed-foreign engine other id [] (row ∷ rows) h a = absurd a
indexed-foreign engine other id (case ∷ cases) [] h a = absurd a
indexed-foreign engine other id (case ∷ cases) (row ∷ rows) h a =
    rw
      (
        indexed-foreign engine other id cases rows h a.1,
        same_key-coherent case engine other id row a.0,
        h,
      )
      refl

indexed-absent :
    (engine id : String) (cases : List Case) (rows : List Result)
    → any (λ case. id == case.id) cases ≡ false
    → Answers engine cases rows
    → indexed engine id rows ≡ none
unfolding indexed
indexed-absent engine id [] [] h a = refl
indexed-absent engine id [] (row ∷ rows) h a = absurd a
indexed-absent engine id (case ∷ cases) [] h a = absurd a
indexed-absent engine id (case ∷ cases) (row ∷ rows) h a =
    rw
      (
        indexed-absent engine id cases rows (ground (arith, h)) a.1,
        same_key-coherent case engine engine id row a.0,
      )
      (ground (arith, h))

-- The result of a case is found by its key.
abbrev pub IsIndexed : String → List Result → Case → Type 0
IsIndexed engine results case =
    (row : Result) × (indexed engine case.id results ≡ some row) × IsCoherent case engine row

IsIndexed-later :
    (engine : String) (row : Result) (rows : List Result) (cases : List Case)
    → All (IsIndexed engine rows) cases
    → All (IsIndexed engine (row ∷ rows)) cases
unfolding indexed
IsIndexed-later engine row rows [] h = tt
IsIndexed-later engine row rows (case ∷ cases) h =
    let (found, there, coherent) = h.0 in
    ((found, rw there refl, coherent), IsIndexed-later engine row rows cases h.1)

pub IsIndexed-Answers :
    (engine : String) (cases : List Case) (rows : List Result)
    → DistinctIds cases
    → Answers engine cases rows
    → All (IsIndexed engine rows) cases
unfolding indexed
IsIndexed-Answers engine [] rows d a = tt
IsIndexed-Answers engine (case ∷ cases) [] d a = absurd a
IsIndexed-Answers engine (case ∷ cases) (row ∷ rows) d a = (
  (
    row,
    rw
        (
          indexed-absent engine case.id cases rows d.0 a.1,
          same_key-coherent case engine engine case.id row a.0,
          eq_refl engine,
          eq_refl case.id,
        )
        refl,
    a.0,
  ),
  IsIndexed-later engine row rows cases (IsIndexed-Answers engine cases rows d.1 a.1),
)

pub indexed-first :
    (engine id : String) (own core : List Result)
    → indexed engine id core ≡ none
    → indexed engine id (own ++ core) ≡ indexed engine id own
unfolding indexed
indexed-first engine id [] core h = h
indexed-first engine id (first ∷ own) core h = rw (indexed-first engine id own core h) refl

pub indexed-second :
    (engine id : String) (own core : List Result) (row : Result)
    → indexed engine id core ≡ some row
    → indexed engine id (own ++ core) ≡ some row
unfolding indexed
indexed-second engine id [] core row h = h
indexed-second engine id (first ∷ own) core row h =
    rw (indexed-second engine id own core row h) refl

-- The keys of the results are those that the catalog calls for, each once.

pub keys-Answers :
    (engine : String) (cases : List Case) (rows : List Result)
    → Answers engine cases rows
    → map key_of rows ≡ map (λ case. (engine, case.id)) cases
keys-Answers engine [] [] a = refl
keys-Answers engine [] (row ∷ rows) a = absurd a
keys-Answers engine (case ∷ cases) [] a = absurd a
keys-Answers engine (case ∷ cases) (row ∷ rows) a =
    rw (keys-Answers engine cases rows a.1, a.0.copied.engine_kept, a.0.copied.id_kept) refl

abbrev pub DistinctKeys : List Key → Type 0
DistinctKeys [] = Unit
DistinctKeys (key ∷ keys) = (any (same_key key) keys ≡ false) × DistinctKeys keys

any-foreign :
    (engine other id : String) (cases : List Case)
    → (engine == other) ≡ false
    → any (same_key (engine, id)) (map (λ case. (other, case.id)) cases) ≡ false
any-foreign engine other id [] h = refl
any-foreign engine other id (case ∷ cases) h = rw (h, any-foreign engine other id cases h) refl

any-own :
    (engine id : String) (cases : List Case)
    → any (λ case. id == case.id) cases ≡ false
    → any (same_key (engine, id)) (map (λ case. (engine, case.id)) cases) ≡ false
any-own engine id [] h = refl
any-own engine id (case ∷ cases) h = ground (arith, h, any-own engine id cases)

DistinctKeys-of_cases :
    (engine : String) (cases : List Case) (rest : List Key)
    → DistinctIds cases
    → All (λ case. any (same_key (engine, case.id)) rest ≡ false) cases
    → DistinctKeys rest
    → DistinctKeys (map (λ case. (engine, case.id)) cases ++ rest)
DistinctKeys-of_cases engine [] rest d f r = r
DistinctKeys-of_cases engine (case ∷ cases) rest d f r = (
  rw (any-append, any-own engine case.id cases d.0) f.0,
  DistinctKeys-of_cases engine cases rest d.1 f.1 r,
)

All-foreign :
    (some_cases cases : List Case)
    → All
        (λ case.
          any (same_key ("xpact", case.id)) (map (λ other. ("xpact-core", other.id)) cases ++ [])
          ≡ false)
        some_cases
All-foreign [] cases = tt
All-foreign (case ∷ some_cases) cases = (
  rw (append-nil {A = Key}) (any-foreign "xpact" "xpact-core" case.id cases refl),
  All-foreign some_cases cases,
)

All-nil :
    (engine : String) (cases : List Case)
    → All (λ case. any (same_key (engine, case.id)) [] ≡ false) cases
All-nil engine [] = tt
All-nil engine (case ∷ cases) = (refl, All-nil engine cases)

pub DistinctKeys-expected :
    (cases : List Case) → DistinctIds cases → DistinctKeys (expected_keys gc_policies cases)
unfolding expected_keys
DistinctKeys-expected cases d =
    DistinctKeys-of_cases "xpact" cases _ d (All-foreign cases cases)
      (DistinctKeys-of_cases "xpact-core" cases [] d (All-nil "xpact-core" cases) tt)

pub distinct_count-eq-length :
    (keys : List Key) → DistinctKeys keys → distinct_count keys ≡ length keys
unfolding distinct_count
distinct_count-eq-length [] d = refl
distinct_count-eq-length (key ∷ keys) d = rw (d.0, distinct_count-eq-length keys d.1) (omega arith)

any-present :
    (engine id : String) (before keys : List Key)
    → any (same_key (engine, id)) (before ++ ((engine, id) ∷ keys)) ≡ true
any-present engine id before keys = rw (any-append, eq_refl engine, eq_refl id) (ground arith)

all-present : (before keys : List Key) → all (λ k. any (same_key k) (before ++ keys)) keys ≡ true
all-present before [] = refl
all-present before ((engine, id) ∷ keys) = rw (any-present engine id before keys) (
    subst (λ every. all (λ k. any (same_key k) every) keys ≡ true)
      (append_assoc before ((engine, id) ∷ []) keys)
      (all-present (before ++ ((engine, id) ∷ [])) keys))

pub same_set_refl : (keys : List Key) → same_set keys keys ≡ true
same_set_refl keys = rw (all-present [] keys) refl
