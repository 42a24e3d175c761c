-- ===== src/Jenkins/Junit.antt =====
-- The JUnit elements that scripts/run_w3c_conformance.py writes (`xml_text`, `add_junit_suite`) and
-- scripts/jenkins_xpact_summary.py counts (`_case_counts`). Times are whole microseconds; an
-- attribute that is missing is the empty text, or -1 for a count.
pub mod Written
mod Tests
use Prim.Native.Char.{Char, code}
use Prim.Native.String
use xpact.Prelude.{
  ℕ, zero, suc, ◌+◌, ◌-◌, String, Bool, true, false, not, ◌&&◌, ◌||◌, List, [], ◌∷◌, ◌++◌, map, any,
  count, sum, length, ◌==◌, ◌<>◌, chars, text_of, splitlines, contains, leb, nat_eq, if◌then◌else◌,
}
use xpact.Prelude.Int.{ℤ, pos, negsuc}
use xpact.Prelude.Outcome.{Outcome, ok, err, value_error, ◌>>=◌, ◌>>◌, refuse}
use xpact.Conformance.Case.{Result}
use xpact.Conformance.Reports.{with_status}

-- The children of a testcase that tell its outcome.
pub data Tag : Type 0 where
  failure error skipped : Tag

pub record Detail : Type 0 where
  pub tag : Tag
  pub message : String
  pub text : String

pub record Test : Type 0 where
  pub classname : String
  pub name : String
  pub time_us : ℤ
  pub details : List Detail

-- A suite; `nested` says whether it holds suites, or testcases below other elements.
pub record Suite : Type 0 where
  pub name : String
  pub tests : ℤ
  pub failures : ℤ
  pub errors : ℤ
  pub skipped : ℤ
  pub time_us : ℕ
  pub nested : Bool
  pub cases : List Test

-- A character that XML 1.0 allows.
unfoldable pub is_allowed : ℕ → Bool
is_allowed n =
    nat_eq n 9
    || (nat_eq n 10
        || (nat_eq n 13
            || ((leb 32 n && leb n 55295)
                || ((leb 57344 n && leb n 65533) || (leb 65536 n && leb n 1114111)))))

allowed : Char → Char
unfolding is_allowed
allowed c = if is_allowed (code c) then c else "?"

unfoldable pub xml_text : String → String
unfolding allowed
xml_text text = text_of (map allowed (chars text))

abbrev pub first_line : List String → String
first_line [] = ""
first_line (line ∷ lines) = line

abbrev pub detail_of : Tag → (status text : String) → Detail
detail_of tag status text = record {
  tag = tag;
  message = xml_text (if text == "" then status else first_line (splitlines text));
  text = xml_text text;
}

abbrev pub text_with_known : Result → String
text_with_known row =
    if row.known == "" then row.message else "[known: " <> row.known <> "] " <> row.message

unfoldable pub details_of : Result → List Detail
unfolding xml_text splitlines
details_of row =
    if row.status == "failed"
    then detail_of failure row.status (text_with_known row) ∷ []
    else if row.status == "error"
    then detail_of error row.status (text_with_known row) ∷ []
    else if row.status == "skipped"
    then detail_of skipped row.status (text_with_known row) ∷ []
    else []

abbrev pub test_of : Result → Test
test_of row = record {
  classname =
      if row.lane == "core"
      then "w3c.xml." <> row.engine
      else "w3c.xml." <> row.engine <> "." <> row.lane;
  name = row.case_id;
  time_us = pos row.elapsed_us;
  details = details_of row;
}

-- `add_junit_suite`
unfoldable pub junit_suite : String → List Result → Suite
unfolding details_of
junit_suite name rows = record {
  name = name;
  tests = pos (length rows);
  failures = pos (with_status "failed" rows);
  errors = pos (with_status "error" rows);
  skipped = pos (with_status "skipped" rows);
  time_us = sum (λ row. row.elapsed_us) rows;
  nested = false;
  cases = map test_of rows;
}

-- The counts of `_case_counts`.
pub record Counts : Type 0 where
  pub tests : ℕ
  pub passed : ℕ
  pub failures : ℕ
  pub errors : ℕ
  pub skipped : ℕ
  pub time_us : ℕ

abbrev pub distinct : List String → Bool
distinct [] = true
distinct (name ∷ names) = not (contains names name) && distinct names

abbrev pub counted : Tag → Counts → Counts
counted failure counts = record counts { failures = suc counts.failures }
counted error counts = record counts { errors = suc counts.errors }
counted skipped counts = record counts { skipped = suc counts.skipped }

-- One testcase more.
abbrev pub with_details : List Detail → Counts → Outcome Counts
with_details [] counts = ok counts
with_details (detail ∷ []) counts = ok (counted detail.tag counts)
with_details (detail ∷ next ∷ details) counts =
    err (value_error "Own JUnit case has contradictory outcomes")

abbrev pub with_time : ℤ → Counts → Outcome Counts
with_time (negsuc n) counts = err (value_error "Own JUnit case duration is invalid")
with_time (pos n) counts = ok (record counts { time_us = counts.time_us + n })

unfoldable pub count_tests : List Test → Counts → Outcome Counts
count_tests [] counts = ok counts
count_tests (test ∷ tests) counts = do
  decided ← with_details test.details counts
  timed ← with_time test.time_us decided
  count_tests tests timed

abbrev pub no_counts : ℕ → Counts
no_counts tests = record {
  tests = tests;
  passed = 0;
  failures = 0;
  errors = 0;
  skipped = 0;
  time_us = 0;
}

abbrev pub with_passed : Counts → Counts
with_passed counts = record counts {
  passed = counts.tests - counts.failures - counts.errors - counts.skipped;
}

unfoldable pub case_counts : List Test → Outcome Counts
unfolding count_tests
case_counts tests = do
  refuse
      (any (λ name. name == "") (map (λ (t : Test). t.name) tests)
        || not (distinct (map (λ (t : Test). t.name) tests)))
      (value_error "Own JUnit case matrix has missing or duplicate names")
  counts ← count_tests tests (no_counts (length tests))
  ok (with_passed counts)
