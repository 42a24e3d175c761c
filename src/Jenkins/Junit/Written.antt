-- ===== src/Jenkins/Junit/Written.antt =====
-- The counts of a suite that was written.
use xpact.Prelude.{
  suc, ◌+◌, String, ◌≡◌, refl, sym, ap, ◌∙◌, inl, inr, Bool, true, false, not, ◌||◌, List, [], ◌∷◌,
  map, any, sum, length, All, ◌==◌, arith, eq_iff, Bool-cases, if◌then◌else◌,
}
use xpact.Prelude.Outcome.{ok, not_refused}
use xpact.Conformance.Case.{Result}
use xpact.Conformance.Reports.{with_status}
use xpact.Conformance.Reports.Totals.{HasStatus, status_total}
use xpact.Jenkins.Junit.{
  Tag, Detail, failure, error, skipped, Test, Counts, details_of, test_of, junit_suite, counted,
  with_details, count_tests, no_counts, case_counts, distinct,
}

-- The counts with those of more rows.
abbrev and_rows : Counts → List Result → Counts
and_rows counts rows = record counts {
  failures = counts.failures + with_status "failed" rows;
  errors = counts.errors + with_status "error" rows;
  skipped = counts.skipped + with_status "skipped" rows;
  time_us = counts.time_us + sum (λ (row : Result). row.elapsed_us) rows;
}

counts_eq :
    (a b : Counts)
    → a.tests ≡ b.tests
    → a.passed ≡ b.passed
    → a.failures ≡ b.failures
    → a.errors ≡ b.errors
    → a.skipped ≡ b.skipped
    → a.time_us ≡ b.time_us
    → a ≡ b
counts_eq a b t p f e s u = λ i. record {
  tests = t i;
  passed = p i;
  failures = f i;
  errors = e i;
  skipped = s i;
  time_us = u i;
}

-- The outcome of one row.
abbrev and_status : Counts → String → Counts
and_status counts status = record counts {
  failures = counts.failures + (if status == "failed" then 1 else 0);
  errors = counts.errors + (if status == "error" then 1 else 0);
  skipped = counts.skipped + (if status == "skipped" then 1 else 0);
}

chosen_first : {A : Type 0} (b : Bool) (x y : A) → b ≡ true → (if b then x else y) ≡ x
chosen_first true x y h = refl
chosen_first false x y h = cc

chosen_other : {A : Type 0} (b : Bool) (x y : A) → b ≡ false → (if b then x else y) ≡ y
chosen_other true x y h = cc
chosen_other false x y h = refl

-- A status is one of them at most.
status_of :
    (status : String) (counts : Counts) (tag : Tag) (name : String)
    → status ≡ name
    → counted tag counts ≡ and_status counts name
    → counted tag counts ≡ and_status counts status
status_of status counts tag name e h = h ∙ ap (and_status counts) (sym e)

counted_as :
    (counts : Counts)
    → (counted failure counts ≡ and_status counts "failed")
      × (counted error counts ≡ and_status counts "error")
      × (counted skipped counts ≡ and_status counts "skipped")
counted_as counts = (
  counts_eq _ _ refl refl (omega arith) (omega arith) (omega arith) refl,
  counts_eq _ _ refl refl (omega arith) (omega arith) (omega arith) refl,
  counts_eq _ _ refl refl (omega arith) (omega arith) (omega arith) refl,
)

with_details-details_of :
    (row : Result) (counts : Counts)
    → with_details (details_of row) counts ≡ ok (and_status counts row.status)
unfolding details_of
with_details-details_of row counts =
    let (as_failure, as_error, as_skipped) = counted_as counts in
    let decided = λ (details : List Detail). with_details details counts in
    elim (Bool-cases (row.status == "failed")) [
      | inl f ↦
          ap decided (chosen_first _ _ _ f)
          ∙ ap ok (
              status_of row.status counts failure "failed" ((eq_iff row.status "failed").0 f)
                as_failure)
      | inr f ↦ elim (Bool-cases (row.status == "error")) [
        | inl e ↦
            ap decided (chosen_other _ _ _ f ∙ chosen_first _ _ _ e)
            ∙ ap ok (
                status_of row.status counts error "error" ((eq_iff row.status "error").0 e)
                  as_error)
        | inr e ↦ elim (Bool-cases (row.status == "skipped")) [
          | inl s ↦
              ap decided (chosen_other _ _ _ f ∙ chosen_other _ _ _ e ∙ chosen_first _ _ _ s)
              ∙ ap ok (
                  status_of row.status counts skipped "skipped" ((eq_iff row.status "skipped").0 s)
                    as_skipped)
          | inr s ↦
              ap decided (chosen_other _ _ _ f ∙ chosen_other _ _ _ e ∙ chosen_other _ _ _ s)
              ∙ ap ok (
                  counts_eq counts (and_status counts row.status) refl refl (ground (arith, f))
                    (ground (arith, e)) (ground (arith, s)) refl)
        ]
      ]
    ]

count_tests-rows :
    (rows : List Result) (counts : Counts)
    → count_tests (map test_of rows) counts ≡ ok (and_rows counts rows)
unfolding count_tests
count_tests-rows [] counts = ap ok (
    counts_eq counts (and_rows counts []) refl refl (omega arith) (omega arith) (omega arith)
      (omega arith))
count_tests-rows (row ∷ rows) counts = rw (with_details-details_of row counts) (
    count_tests-rows rows
      (record (and_status counts row.status) { time_us = counts.time_us + row.elapsed_us })
    ∙ ap ok (
        counts_eq _ (and_rows counts (row ∷ rows)) refl refl (omega arith) (omega arith)
          (omega arith) (omega arith)))

names_kept :
    (rows : List Result)
    → map (λ (t : Test). t.name) (map test_of rows) ≡ map (λ (row : Result). row.case_id) rows
names_kept [] = refl
names_kept (row ∷ rows) = ap (λ names. row.case_id ∷ names) (names_kept rows)

tests_kept : (rows : List Result) → length (map test_of rows) ≡ length rows
tests_kept [] = refl
tests_kept (row ∷ rows) = ap suc (tests_kept rows)

-- The counts by status.
abbrev pub counts_from : List Result → Counts
counts_from rows = record {
  tests = length rows;
  passed = with_status "passed" rows;
  failures = with_status "failed" rows;
  errors = with_status "error" rows;
  skipped = with_status "skipped" rows;
  time_us = sum (λ (row : Result). row.elapsed_us) rows;
}

module _ (name : String) (rows : List Result)
    (named : any (λ id. id == "") (map (λ (row : Result). row.case_id) rows) ≡ false)
    (once : distinct (map (λ (row : Result). row.case_id) rows) ≡ true)
    (run : All HasStatus rows) where
  -- The cases of a suite that is written for results are counted as the results are: with different
  -- ids, none of them empty, and one of the four statuses each, every result is one test, with one
  -- outcome by its status, and the times add up to the time that the suite declares.
  pub case_counts-junit_suite :
      (case_counts (junit_suite name rows).cases ≡ ok (counts_from rows))
      × ((junit_suite name rows).time_us ≡ (counts_from rows).time_us)
  unfolding case_counts junit_suite
  case_counts-junit_suite = (
    not_refused
          (any (λ id. id == "") (map (λ (t : Test). t.name) (map test_of rows))
            || not (distinct (map (λ (t : Test). t.name) (map test_of rows))))
          _ _
          (ap (λ names. any (λ id. id == "") names || not (distinct names)) (names_kept rows)
            ∙ ground (arith, named, once))
        ∙ rw (count_tests-rows rows (no_counts (length (map test_of rows)))) (
            ap ok (
              counts_eq _ (counts_from rows) (tests_kept rows)
                (omega (arith, status_total rows run, tests_kept rows)) (omega arith) (omega arith)
                (omega arith) (omega arith))),
    refl,
  )
