-- ===== src/Conformance/Known/Gate.antt =====
-- When a run with a known-failures list has nothing unexpected.
use xpact.Prelude.{
  String, ◌≡◌, ◌≢◌, refl, Bool, false, not, ◌||◌, ◌&&◌, List, [], ◌∷◌, ◌++◌, map, arith, eq_iff,
  any, all, any-append, All, inl, inr, Bool-cases,
}
use xpact.Conformance.Case.{Result}
use xpact.Conformance.Reports.{unexpected}
use xpact.Conformance.Known.{Entry, apply_known_failures}
use xpact.Conformance.Known.Lookup.{DistinctCases, lists, mark, mark_all}
use xpact.Conformance.Known.Marking.{current, marked-eq-map, stale-eq-not-current}

-- The result is a failure or an error that no entry lists.
abbrev pub uncovered : List Entry → Result → Bool
uncovered known row = unexpected row && not (any (λ entry. lists entry row) known)

abbrev pub HasCategory : Entry → Type 0
HasCategory entry = entry.category ≢ ""

unexpected-marked :
    (row : Result) (text : String) → text ≢ "" → unexpected (record row { known = text }) ≡ false
unfolding unexpected
unexpected-marked row text h = ground (arith, eq_iff text "")

-- `mark` leaves what entries list alone.
any-lists-mark :
    (known : List Entry) (entry : Entry) (row : Result)
    → any (λ other. lists other (mark entry row)) known ≡ any (λ other. lists other row) known
any-lists-mark known entry row = elim (Bool-cases (lists entry row)) [
  | inl listed ↦ rw listed
  | inr free ↦ rw free
]

unexpected-mark_all :
    (known : List Entry) (row : Result)
    → All HasCategory known
    → unexpected (mark_all known row) ≡ uncovered known row
unexpected-mark_all [] row h = ground arith
unexpected-mark_all (entry ∷ known) row h = elim (Bool-cases (lists entry row)) [
  | inl listed ↦
      rw (unexpected-mark_all known (mark entry row) h.1, any-lists-mark known entry row)
        (rw listed (rw (unexpected-marked row entry.category h.0) (ground arith)))
  | inr free ↦
      rw (unexpected-mark_all known (mark entry row) h.1, any-lists-mark known entry row) (rw free)
]

any-unexpected-map :
    (known : List Entry) (rows : List Result)
    → All HasCategory known
    → any unexpected (map (mark_all known) rows) ≡ any (uncovered known) rows
any-unexpected-map known [] h = refl
any-unexpected-map known (row ∷ rows) h =
    rw (unexpected-mark_all known row h, any-unexpected-map known rows h)

module _ (rows : List Result) (known : List Entry) (distinct : DistinctCases rows)
    (categories : All HasCategory known) where
  -- Where no two results have engine and case in common and every entry has a category, the
  -- results with the stale entries added hold something unexpected exactly when a failure or an
  -- error without a mark is listed by no entry with its status, or an entry of an engine that was
  -- run agrees with no result in key and status.
  pub unexpected-apply_known_failures :
      let (marked, stale) = apply_known_failures rows known in
      any unexpected (marked ++ stale)
      ≡ (any (uncovered known) rows || not (all (current rows) known))
  unexpected-apply_known_failures = rw (
    any-append,
    marked-eq-map rows known distinct,
    stale-eq-not-current rows known distinct,
    any-unexpected-map known rows categories,
  )
