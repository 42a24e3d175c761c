-- ===== src/Conformance/Known/RoundTrip.antt =====
-- A list that a run writes is read back, and explains that run.
use xpact.Prelude.{
  String, ◌≡◌, refl, sym, ◌∙◌, true, false, List, [], ◌∷◌, ◌++◌, arith, eq_iff, eq_refl, any, all,
  any-append, All, inl, inr, Bool-cases, ||-false,
}
use mathlib.Core.Path.{subst}
use mathlib.Core.List.{append_assoc}
use xpact.Prelude.Outcome.{ok}
use xpact.Conformance.Case.{Result}
use xpact.Conformance.Reports.{unexpected}
use xpact.Conformance.Known.{
  Entry, same_key, load_known_failures, apply_known_failures, written, known_entry,
  write_known_failures,
}
use xpact.Conformance.Known.Lookup.{DistinctCases, same_case, lists}
use xpact.Conformance.Known.Marking.{current}
use xpact.Conformance.Known.Gate.{uncovered, HasCategory, unexpected-apply_known_failures}
use xpact.Conformance.Known.Load.{Fresh, IsListed, collect-Fresh}
use xpact.Conformance.Known.Lines.{
  IsPlain, entries, read_rows-written, written-failing, incomplete-entry, category-plain,
}

-- Distinct results give distinct entries.

abbrev Distinct : List Entry → Type 0
Distinct [] = Unit
Distinct (row ∷ rows) = (any (same_key row) rows ≡ false) × Distinct rows

same_key_comm : (a b : Entry) → same_key a b ≡ same_key b a
same_key_comm a b = ground (
  arith,
  eq_iff a.engine b.engine,
  eq_iff b.engine a.engine,
  eq_iff a.case_id b.case_id,
  eq_iff b.case_id a.case_id,
)

apart-append :
    (known : List Entry) (row : Entry) (rows : List Entry)
    → All (λ other. any (same_key other) known ≡ false) rows
    → any (same_key row) rows ≡ false
    → All (λ other. any (same_key other) (known ++ (row ∷ [])) ≡ false) rows
apart-append known row [] h n = tt
apart-append known row (other ∷ rows) h n = (
  any-append (same_key other) known (row ∷ []) ∙ ground (arith, same_key_comm row other),
  apart-append known row rows h.1 (ground arith),
)

Fresh-of_Distinct :
    (known rows : List Entry)
    → All (λ other. any (same_key other) known ≡ false) rows
    → Distinct rows
    → Fresh known rows
Fresh-of_Distinct known [] h d = tt
Fresh-of_Distinct known (row ∷ rows) h d =
    (h.0, Fresh-of_Distinct (known ++ (row ∷ [])) rows (apart-append known row rows h.1 d.0) d.1)

none_before : (rows : List Entry) → All (λ other. any (same_key other) [] ≡ false) rows
none_before [] = tt
none_before (row ∷ rows) = (refl, none_before rows)

any-entries :
    (row : Result) (rows : List Result)
    → any (same_case row) rows ≡ false
    → any (same_key (known_entry row)) (entries rows) ≡ false
unfolding known_entry
any-entries row [] h = refl
any-entries row (other ∷ rows) h = elim (Bool-cases (written other)) [
  | inl shown ↦
      let (now, later) = ||-false (same_case row other) (any (same_case row) rows) h in
      rw (shown, any-entries row rows later) (ground arith)
  | inr hidden ↦
      rw hidden
        (any-entries row rows (||-false (same_case row other) (any (same_case row) rows) h).1)
]

Distinct-entries : (rows : List Result) → DistinctCases rows → Distinct (entries rows)
Distinct-entries [] d = tt
Distinct-entries (row ∷ rows) d = elim (Bool-cases (written row)) [
  | inl shown ↦ rw shown (any-entries row rows d.0, Distinct-entries rows d.1)
  | inr hidden ↦ rw hidden (Distinct-entries rows d.1)
]

IsListed-entries : (rows : List Result) → All IsPlain rows → All IsListed (entries rows)
unfolding known_entry
IsListed-entries [] h = tt
IsListed-entries (row ∷ rows) h = elim (Bool-cases (written row)) [
  | inl shown ↦ rw shown (
    (incomplete-entry row h.0 (written-failing row shown), written-failing row shown),
    IsListed-entries rows h.1,
  )
  | inr hidden ↦ rw hidden (IsListed-entries rows h.1)
]

-- A run's own list explains it.

lists-own : (row : Result) → lists (known_entry row) row ≡ true
unfolding known_entry
lists-own row = rw (eq_refl row.engine, eq_refl row.case_id, eq_refl row.status)

covered :
    (known : List Entry) (row : Result)
    → IsPlain row
    → (written row ≡ true → any (λ entry. lists entry row) known ≡ true)
    → uncovered known row ≡ false
unfolding unexpected
covered known row plain h = ground (arith, plain.ours)

covered_own :
    (known rest : List Entry) (row : Result)
    → any (λ entry. lists entry row) (known ++ (known_entry row ∷ rest)) ≡ true
covered_own known rest row =
    any-append (λ entry. lists entry row) known (known_entry row ∷ rest)
    ∙ ground (arith, lists-own row)

entries-shown :
    (row : Result) (rows : List Result)
    → written row ≡ true
    → entries (row ∷ rows) ≡ known_entry row ∷ entries rows
entries-shown row rows shown = rw shown

entries-hidden :
    (row : Result) (rows : List Result) → written row ≡ false → entries (row ∷ rows) ≡ entries rows
entries-hidden row rows hidden = rw hidden

-- `known` holds the entries of the rows before.
any-covered :
    (known : List Entry) (rows : List Result)
    → All IsPlain rows
    → any (uncovered (known ++ entries rows)) rows ≡ false
any-covered known [] h = refl
any-covered known (row ∷ rows) h = elim (Bool-cases (written row)) [
  | inl shown ↦
      let own =
        covered (known ++ (known_entry row ∷ entries rows)) row h.0
          (λ _. covered_own known (entries rows) row) in
      let later =
        subst (λ k. any (uncovered k) rows ≡ false)
          (append_assoc known (known_entry row ∷ []) (entries rows))
          (any-covered (known ++ (known_entry row ∷ [])) rows h.1) in
      subst (λ es. any (uncovered (known ++ es)) (row ∷ rows) ≡ false)
        (sym (entries-shown row rows shown)) (rw own later)
  | inr hidden ↦
      let own = covered (known ++ entries rows) row h.0 (λ shown. cc) in
      subst (λ es. any (uncovered (known ++ es)) (row ∷ rows) ≡ false)
        (sym (entries-hidden row rows hidden)) (rw own (any-covered known rows h.1))
]

current_own :
    (before rows : List Result) (row : Result)
    → current (before ++ (row ∷ rows)) (known_entry row) ≡ true
current_own before rows row =
    let found = any-append (lists (known_entry row)) before (row ∷ rows) in
    ground (arith, found, lists-own row)

all-current-own : (before rows : List Result) → all (current (before ++ rows)) (entries rows) ≡ true
all-current-own before [] = refl
all-current-own before (row ∷ rows) =
    let later =
      subst (λ rest. all (current rest) (entries rows) ≡ true) (append_assoc before (row ∷ []) rows)
        (all-current-own (before ++ (row ∷ [])) rows) in
    elim (Bool-cases (written row)) [
      | inl shown ↦ rw (shown, current_own before rows row) later
      | inr hidden ↦ rw hidden later
    ]

HasCategory-entries : (rows : List Result) → All IsPlain rows → All HasCategory (entries rows)
HasCategory-entries [] h = tt
HasCategory-entries (row ∷ rows) h = elim (Bool-cases (written row)) [
  | inl shown ↦ rw shown ((category-plain row h.0.unmarked).1, HasCategory-entries rows h.1)
  | inr hidden ↦ rw hidden (HasCategory-entries rows h.1)
]

module _ (path : String) (rows : List Result) (distinct : DistinctCases rows)
    (plain : All IsPlain rows) where
  -- For a run whose results have distinct keys, carry no mark, are not the harness's, and have
  -- nonempty case and engine names without tabs, quotes, line breaks and NULs, the engine's not
  -- opening a comment: the list that the run
  -- writes loads without an error, and applied to the same run it leaves nothing unexpected,
  -- neither a result without a mark nor a stale entry.
  pub write-load-apply :
      (known : List Entry) × (load_known_failures path (write_known_failures rows) ≡ ok known)
      × (let (marked, stale) = apply_known_failures rows known in
          any unexpected (marked ++ stale) ≡ false)
  unfolding load_known_failures
  write-load-apply = (
    entries rows,
    rw (read_rows-written rows plain) (
        collect-Fresh path 1 [] (entries rows) (IsListed-entries rows plain) (
          Fresh-of_Distinct [] (entries rows) (none_before (entries rows))
            (Distinct-entries rows distinct))),
    unexpected-apply_known_failures rows (entries rows) distinct (HasCategory-entries rows plain)
        ∙ rw (any-covered [] rows plain, all-current-own [] rows),
  )
