-- ===== src/Conformance/Known/Lines.antt =====
-- The lines that a run writes are read back as the entries that it wrote.
use xpact.Prelude.{
  String, ◌≡◌, ◌≢◌, refl, true, false, not, ◌&&◌, List, [], ◌∷◌, map, arith, eq_iff, ◌==◌,
  starts_with, any, chars, all-contains, contains, &&-true, keep, All, inl, inr, Bool-cases,
}
use xpact.Prelude.Csv.{field}
use xpact.Conformance.Case.{Result}
use xpact.Conformance.Known.{
  Entry, split_tabs, join_tabs, field_names, entry_of, content, read_rows, incomplete, failing,
  observed_category, written, known_entry, fields_of, write_known_failures,
}
use xpact.Conformance.Known.Tabs.{
  is_unsafe, NoTab, IsText, NoTab-of_text, field-text, name-ne-empty, name-append-ne-empty,
  IsText-of_name, IsName, split_tabs-one, split_tabs-field, not-comment,
}

-- What a result must be to be written without quotes and outside comments: its engine and its case
-- have names without tabs, quotes, line breaks and NULs.
pub record IsPlain (row : Result) : Type 0 where
  pub engine_name : IsName row.engine
  pub case_given : row.case_id ≢ ""
  pub case_plain : IsText row.case_id
  pub unmarked : row.known ≡ ""
  pub ours : (row.engine == "harness") ≡ false

abbrev pub entries : List Result → List Entry
entries rows = map known_entry (keep written rows)

abbrev line_of : Entry → String
line_of entry = join_tabs (fields_of entry)

entry_of_line :
    (entry : Entry)
    → NoTab entry.engine
    → NoTab entry.case_id
    → NoTab entry.status
    → NoTab entry.category
    → entry_of field_names (split_tabs (line_of entry)) ≡ entry
unfolding join_tabs entry_of
entry_of_line entry a b c d = rw (
  split_tabs-field entry.engine _ a,
  split_tabs-field entry.case_id _ b,
  split_tabs-field entry.status _ c,
  split_tabs-one entry.category d,
)

IsText-failing : (status : String) → failing status ≡ true → IsText status
IsText-failing status h = ground (
  arith,
  all-contains (λ (t : String). not (any is_unsafe (chars t))) ("failed" ∷ "error" ∷ []) status refl
      h,
)

abbrev categories : List String
categories =
    "accepts input that must be rejected" ∷ "rejects input that must be accepted" ∷ "timeout"
    ∷ "process error (crash or contract violation)" ∷ []

observed_category-listed : (row : Result) → contains categories (observed_category row) ≡ true
unfolding observed_category
observed_category-listed row = elim (Bool-cases (row.actual == "ACCEPT")) [
  | inl accepted ↦ rw accepted
  | inr other ↦ rw other (elim (Bool-cases (row.actual == "REJECT")) [
    | inl rejected ↦ rw rejected
    | inr neither ↦ rw neither (elim (Bool-cases (row.actual == "timeout")) [
      | inl late ↦ rw late
      | inr broken ↦ rw broken
    ])
  ])
]

pub category-plain :
    (row : Result)
    → row.known ≡ ""
    → IsText (known_entry row).category × ((known_entry row).category ≢ "")
unfolding known_entry
category-plain row h =
    let unmarked : (row.known == "") ≡ true = (eq_iff row.known "").1 h in
    let good =
      all-contains (λ (t : String). not (any is_unsafe (chars t)) && not (t == "")) categories
        (observed_category row) refl (observed_category-listed row) in
    rw unmarked (ground (arith, good, eq_iff (observed_category row) ""))

eq_empty-false : (s : String) → s ≢ "" → (s == "") ≡ false
eq_empty-false s h = ground (arith, eq_iff s "")

failing-ne-empty : (status : String) → failing status ≡ true → (status == "") ≡ false
failing-ne-empty status h =
    ground
      (arith, all-contains (λ (t : String). not (t == "")) ("failed" ∷ "error" ∷ []) status refl h)

pub incomplete-entry :
    (row : Result) → IsPlain row → failing row.status ≡ true → incomplete (known_entry row) ≡ false
unfolding known_entry
incomplete-entry row plain fails =
    rw
      (
        eq_empty-false row.engine (name-ne-empty row.engine plain.engine_name),
        eq_empty-false row.case_id plain.case_given,
        failing-ne-empty row.status fails,
      )
      (eq_empty-false (known_entry row).category (category-plain row plain.unmarked).1)

-- Reading

entry_of_written :
    (row : Result)
    → IsPlain row
    → failing row.status ≡ true
    → entry_of field_names (split_tabs (line_of (known_entry row))) ≡ known_entry row
unfolding known_entry
entry_of_written row plain fails =
    entry_of_line (known_entry row)
      (NoTab-of_text row.engine (IsText-of_name row.engine plain.engine_name))
      (NoTab-of_text row.case_id plain.case_plain)
      (NoTab-of_text row.status (IsText-failing row.status fails))
      (NoTab-of_text (known_entry row).category (category-plain row plain.unmarked).0)

-- A written line is neither a comment nor blank.
line-shown :
    (row : Result)
    → IsPlain row
    → (starts_with (line_of (known_entry row)) "#" ≡ false)
      × ((line_of (known_entry row) == "") ≡ false)
unfolding known_entry join_tabs
line-shown row plain = (
  not-comment row.engine _ plain.engine_name,
  eq_empty-false _ (name-append-ne-empty row.engine _ plain.engine_name),
)

content-lines :
    (rows : List Result)
    → All IsPlain rows
    → content (map (λ row. line_of (known_entry row)) (keep written rows))
      ≡ map (λ row. line_of (known_entry row)) (keep written rows)
content-lines [] h = refl
content-lines (row ∷ rows) h = elim (Bool-cases (written row)) [
  | inl shown ↦ rw (shown, (line-shown row h.0).0, content-lines rows h.1)
  | inr hidden ↦ rw (hidden, content-lines rows h.1)
]

pub written-failing : (row : Result) → written row ≡ true → failing row.status ≡ true
written-failing row h = (&&-true (not (row.engine == "harness")) (failing row.status) h).1

abbrev lines_of : List Result → List String
lines_of rows = map (λ row. line_of (known_entry row)) (keep written rows)

shown-lines :
    (rows : List Result)
    → All IsPlain rows
    → keep (λ line. not (line == "")) (lines_of rows) ≡ lines_of rows
shown-lines [] h = refl
shown-lines (row ∷ rows) h = elim (Bool-cases (written row)) [
  | inl shown ↦ rw (shown, (line-shown row h.0).1, shown-lines rows h.1)
  | inr hidden ↦ rw (hidden, shown-lines rows h.1)
]

entries-lines :
    (rows : List Result)
    → All IsPlain rows
    → map (λ line. entry_of field_names (split_tabs line)) (lines_of rows) ≡ entries rows
entries-lines [] h = refl
entries-lines (row ∷ rows) h = elim (Bool-cases (written row)) [
  | inl shown ↦
      rw (shown, entry_of_written row h.0 (written-failing row shown), entries-lines rows h.1)
  | inr hidden ↦ rw (hidden, entries-lines rows h.1)
]

-- No field of a plain row is quoted.
fields-plain :
    (row : Result)
    → IsPlain row
    → failing row.status ≡ true
    → join_tabs (map field (fields_of (known_entry row))) ≡ line_of (known_entry row)
unfolding known_entry
fields-plain row plain fails = rw (
  field-text row.engine (IsText-of_name row.engine plain.engine_name),
  field-text row.case_id plain.case_plain,
  field-text row.status (IsText-failing row.status fails),
  field-text (known_entry row).category (category-plain row plain.unmarked).0,
)

fields-lines :
    (rows : List Result)
    → All IsPlain rows
    → map (λ row. join_tabs (map field (fields_of (known_entry row)))) (keep written rows)
      ≡ lines_of rows
fields-lines [] h = refl
fields-lines (row ∷ rows) h = elim (Bool-cases (written row)) [
  | inl shown ↦ rw (shown, fields-plain row h.0 (written-failing row shown), fields-lines rows h.1)
  | inr hidden ↦ rw (hidden, fields-lines rows h.1)
]

pub read_rows-written :
    (rows : List Result)
    → All IsPlain rows
    → read_rows (content (write_known_failures rows)) ≡ entries rows
unfolding read_rows write_known_failures
read_rows-written rows h =
    rw (fields-lines rows h, content-lines rows h, shown-lines rows h) (entries-lines rows h)
