-- ===== src/Conformance/Known/Lookup.antt =====
-- What an entry of the known-failures list finds among results with distinct keys.
use xpact.Prelude.{
  ◌≡◌, refl, Bool, true, false, ◌&&◌, none, some, List, [], ◌∷◌, map, arith, eq_iff, ◌==◌, any, inl,
  inr, Bool-cases, Option-cases, if◌then◌else◌,
}
use xpact.Conformance.Case.{Result}
use xpact.Conformance.Known.{Entry, names, find_last, mark_last}

abbrev pub same_case : Result → Result → Bool
same_case a b = a.engine == b.engine && a.case_id == b.case_id

-- No two results have the engine and the case in common.
abbrev pub DistinctCases : List Result → Type 0
DistinctCases [] = Unit
DistinctCases (row ∷ rows) = (any (same_case row) rows ≡ false) × DistinctCases rows

-- An entry speaks of a result if their keys and their statuses agree.
abbrev pub lists : Entry → Result → Bool
lists entry row = names entry row && row.status == entry.status

abbrev pub mark : Entry → Result → Result
mark entry row = if lists entry row then record row { known = entry.category } else row

-- The mark of the last entry that lists the result.
abbrev pub mark_all : List Entry → Result → Result
mark_all [] row = row
mark_all (entry ∷ known) row = mark_all known (mark entry row)

-- Two results that an entry names have the same key.
same_case_of_names :
    (entry : Entry) (a b : Result)
    → names entry a ≡ true
    → names entry b ≡ true
    → same_case a b ≡ true
same_case_of_names entry a b h k = ground (
  arith,
  eq_iff a.engine entry.engine,
  eq_iff b.engine entry.engine,
  eq_iff a.case_id entry.case_id,
  eq_iff b.case_id entry.case_id,
  eq_iff a.engine b.engine,
  eq_iff a.case_id b.case_id,
)

any-names :
    (entry : Entry) (row : Result) (rows : List Result)
    → names entry row ≡ true
    → any (same_case row) rows ≡ false
    → any (names entry) rows ≡ false
any-names entry row [] h k = refl
any-names entry row (other ∷ rows) h k =
    ground (arith, same_case_of_names entry row other, any-names entry row rows)

pub find_last-none :
    (entry : Entry) (rows : List Result)
    → any (names entry) rows ≡ false
    → find_last entry rows ≡ none
unfolding find_last
find_last-none entry [] h = refl
find_last-none entry (row ∷ rows) h = ground (arith, find_last-none entry rows)

pub any-names-of_none :
    (entry : Entry) (rows : List Result)
    → find_last entry rows ≡ none
    → any (names entry) rows ≡ false
unfolding find_last
any-names-of_none entry [] h = refl
any-names-of_none entry (row ∷ rows) h = ground (arith, any-names-of_none entry rows)

pub any-lists-of_unnamed :
    (entry : Entry) (rows : List Result)
    → any (names entry) rows ≡ false
    → any (lists entry) rows ≡ false
any-lists-of_unnamed entry [] h = refl
any-lists-of_unnamed entry (row ∷ rows) h = ground (arith, any-lists-of_unnamed entry rows)

pub map-mark_unlisted :
    (entry : Entry) (rows : List Result)
    → any (lists entry) rows ≡ false
    → map (mark entry) rows ≡ rows
map-mark_unlisted entry [] h = refl
map-mark_unlisted entry (row ∷ rows) h = elim (Bool-cases (lists entry row)) [
  | inl listed ↦ ground arith
  | inr free ↦ rw (free, map-mark_unlisted entry rows (ground arith))
]

-- The result that the key finds decides whether the entry lists any.
pub any-lists-of_found :
    (entry : Entry) (rows : List Result) (row : Result)
    → DistinctCases rows
    → find_last entry rows ≡ some row
    → any (lists entry) rows ≡ (row.status == entry.status)
unfolding find_last
any-lists-of_found entry [] row d h = cc
any-lists-of_found entry (first ∷ rows) row d h = ground (
  arith,
  any-lists-of_found entry rows row d.1,
  any-names entry first rows,
  find_last-none entry rows,
  any-names-of_none entry rows,
  any-lists-of_unnamed entry rows,
)

pub mark_last-eq-map :
    (entry : Entry) (rows : List Result) (row : Result)
    → DistinctCases rows
    → find_last entry rows ≡ some row
    → (row.status == entry.status) ≡ true
    → mark_last entry rows ≡ map (mark entry) rows
unfolding find_last mark_last
mark_last-eq-map entry [] row d h same = cc
mark_last-eq-map entry (first ∷ rows) row d h same = elim (Option-cases (find_last entry rows)) [
  | inl absent ↦
      let alone = any-names-of_none entry rows absent in
      rw (absent, mark_last, map-mark_unlisted entry rows (any-lists-of_unnamed entry rows alone))
        (ground arith)
  | inr (found, later) ↦
      rw (later, mark_last, ← mark_last-eq-map entry rows row d.1 (ground arith) same)
        (ground (arith, any-names entry first rows, find_last-none entry rows))
]
