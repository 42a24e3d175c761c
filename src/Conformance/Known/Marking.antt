-- ===== src/Conformance/Known/Marking.antt =====
-- Where no two results share engine and case, applying the list marks each listed result.
use xpact.Prelude.{
  String, ◌≡◌, refl, sym, ap, ◌∙◌, Bool, true, false, not, ◌||◌, List, [], ◌∷◌, map, arith, ◌==◌,
  any, all, any-append, inl, inr, Bool-cases, Option-cases,
}
use xpact.Conformance.Case.{Result}
use xpact.Conformance.Reports.{unexpected}
use xpact.Conformance.Known.Lookup.{
  DistinctCases, same_case, lists, mark, mark_all, any-names-of_none, any-lists-of_unnamed,
  map-mark_unlisted, any-lists-of_found, mark_last-eq-map,
}
use xpact.Conformance.Known.{Entry, find_last, apply_one, apply_known_failures, stale}

any-lists-of_foreign :
    (entry : Entry) (rows : List Result)
    → any (λ row. row.engine == entry.engine) rows ≡ false
    → any (lists entry) rows ≡ false
any-lists-of_foreign entry [] h = refl
any-lists-of_foreign entry (row ∷ rows) h = ground (arith, any-lists-of_foreign entry rows)

-- One round marks what the entry lists.
apply_one-eq-map :
    (entry : Entry) (rows : List Result)
    → DistinctCases rows
    → (apply_one entry rows).0 ≡ map (mark entry) rows
unfolding apply_one
apply_one-eq-map entry rows d = elim (Bool-cases (any (λ row. row.engine == entry.engine) rows)) [
  | inr foreign ↦
      rw foreign (sym (map-mark_unlisted entry rows (any-lists-of_foreign entry rows foreign)))
  | inl ours ↦ rw ours (elim (Option-cases (find_last entry rows)) [
    | inl absent ↦ rw absent (
        sym (
          map-mark_unlisted entry rows
            (any-lists-of_unnamed entry rows (any-names-of_none entry rows absent))))
    | inr (row, found) ↦ rw found (elim (Bool-cases (row.status == entry.status)) [
      | inl same ↦ rw same (mark_last-eq-map entry rows row d found same)
      | inr other ↦
          rw other
            (sym (map-mark_unlisted entry rows (any-lists-of_found entry rows row d found ∙ other)))
    ])
  ])
]

-- An entry is current if its engine was not run, or some result has its key and its status.
abbrev pub current : List Result → Entry → Bool
current rows entry = not (any (λ row. row.engine == entry.engine) rows) || any (lists entry) rows

stale-unexpected : (entry : Entry) (actual : String) → unexpected (stale entry actual) ≡ true
unfolding unexpected
stale-unexpected entry actual = refl

-- One round reports the entry exactly if it is not current.
apply_one-stale :
    (entry : Entry) (rows : List Result)
    → DistinctCases rows
    → any unexpected (apply_one entry rows).1 ≡ not (current rows entry)
unfolding apply_one
apply_one-stale entry rows d = elim (Bool-cases (any (λ row. row.engine == entry.engine) rows)) [
  | inr foreign ↦ rw foreign
  | inl ours ↦ rw ours (elim (Option-cases (find_last entry rows)) [
    | inl absent ↦ rw (
      absent,
      any-lists-of_unnamed entry rows (any-names-of_none entry rows absent),
      stale-unexpected,
    )
    | inr (row, found) ↦
        rw (found, any-lists-of_found entry rows row d found)
          (elim (Bool-cases (row.status == entry.status)) [
            | inl same ↦ rw same
            | inr other ↦ rw (other, stale-unexpected)
          ])
  ])
]

-- Marking changes no key and no status.
any-mark :
    (p : Result → Bool) (entry : Entry) (rows : List Result)
    → ((row : Result) (text : String) → p (record row { known = text }) ≡ p row)
    → any p (map (mark entry) rows) ≡ any p rows
any-mark p entry [] h = refl
any-mark p entry (row ∷ rows) h =
    rw (any-mark p entry rows h) (ground (arith, h row entry.category))

same_case-mark :
    (entry : Entry) (row : Result) (rows : List Result)
    → any (same_case row) rows ≡ false
    → any (same_case (mark entry row)) rows ≡ false
same_case-mark entry row rows h = elim (Bool-cases (lists entry row)) [
  | inl listed ↦ rw listed h
  | inr free ↦ rw free h
]

map-id : (rows : List Result) → rows ≡ map (λ row. row) rows
map-id [] = refl
map-id (row ∷ rows) = ap (λ rest. row ∷ rest) (map-id rows)

DistinctCases-mark :
    (entry : Entry) (rows : List Result)
    → DistinctCases rows
    → DistinctCases (map (mark entry) rows)
DistinctCases-mark entry [] d = tt
DistinctCases-mark entry (row ∷ rows) d = (
  any-mark (same_case (mark entry row)) entry rows (λ other text. refl)
      ∙ same_case-mark entry row rows d.0,
  DistinctCases-mark entry rows d.1,
)

all-current-mark :
    (entry : Entry) (rows : List Result) (known : List Entry)
    → all (current (map (mark entry) rows)) known ≡ all (current rows) known
all-current-mark entry rows [] = refl
all-current-mark entry rows (other ∷ known) = rw (
  any-mark (λ row. row.engine == other.engine) entry rows (λ row text. refl),
  any-mark (lists other) entry rows (λ row text. refl),
  all-current-mark entry rows known,
)

map-mark_all :
    (entry : Entry) (known : List Entry) (rows : List Result)
    → map (mark_all known) (map (mark entry) rows) ≡ map (mark_all (entry ∷ known)) rows
map-mark_all entry known [] = refl
map-mark_all entry known (row ∷ rows) = rw (map-mark_all entry known rows)

pub marked-eq-map :
    (rows : List Result) (known : List Entry)
    → DistinctCases rows
    → (apply_known_failures rows known).0 ≡ map (mark_all known) rows
unfolding apply_known_failures
marked-eq-map rows [] d = map-id rows
marked-eq-map rows (entry ∷ known) d =
    rw
      (
        apply_one-eq-map entry rows d,
        marked-eq-map (map (mark entry) rows) known (DistinctCases-mark entry rows d),
      )
      (map-mark_all entry known rows)

pub stale-eq-not-current :
    (rows : List Result) (known : List Entry)
    → DistinctCases rows
    → any unexpected (apply_known_failures rows known).1 ≡ not (all (current rows) known)
unfolding apply_known_failures
stale-eq-not-current rows [] d = refl
stale-eq-not-current rows (entry ∷ known) d =
    rw
      (
        any-append,
        apply_one-stale entry rows d,
        apply_one-eq-map entry rows d,
        stale-eq-not-current (map (mark entry) rows) known (DistinctCases-mark entry rows d),
        all-current-mark entry rows known,
      )
      (ground arith)
