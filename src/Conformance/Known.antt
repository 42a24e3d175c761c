-- ===== src/Conformance/Known.antt =====
-- The known-failures list of scripts/run_w3c_conformance.py: `load_known_failures`,
-- `apply_known_failures`, `write_known_failures` and `observed_category`. A file that is read is its
-- list of lines, none of which has a quoted field; a file that is written is its list of rows, each
-- with its fields quoted where `csv` quotes them.
pub mod Lookup
pub mod Marking
pub mod Gate
mod Tabs
pub mod Load
pub mod Lines
pub mod RoundTrip
mod Tests
use Prim.Native.Char.{Char, code}
use Prim.Native.String
use xpact.Prelude.{
  ℕ, suc, String, Bool, true, false, not, ◌||◌, ◌&&◌, Option, none, some, List, [], ◌∷◌, ◌++◌, map,
  ◌==◌, starts_with, ◌<>◌, any, keep, contains, show, nat_eq, if◌then◌else◌,
}
use xpact.Prelude.Outcome.{Outcome, ok, err, value_error, ◌>>=◌, ◌>>◌, refuse}
use xpact.Prelude.Csv.{field}
use xpact.Conformance.Case.{Result}

-- A row of the list; a field that is missing is empty, which `row.get` does not tell apart.
pub record Entry : Type 0 where
  pub engine : String
  pub case_id : String
  pub status : String
  pub category : String

-- Lines

abbrev pub prepend : Char → List String → List String
prepend c [] = String.◌∷◌ c "" ∷ []
prepend c (field ∷ fields) = String.◌∷◌ c field ∷ fields

-- The fields between the tabs of a line.
unfoldable pub split_tabs : String → List String
split_tabs String.[] = "" ∷ []
split_tabs (String.◌∷◌ c s) =
    let rest = split_tabs s in if nat_eq (code c) 9 then "" ∷ rest else prepend c rest

unfoldable pub join_tabs : List String → String
join_tabs [] = ""
join_tabs (field ∷ []) = field
join_tabs (field ∷ next ∷ fields) = field <> "\t" <> join_tabs (next ∷ fields)

abbrev pub field_names : List String
field_names = "engine" ∷ "case_id" ∷ "status" ∷ "category" ∷ []

-- The value of the last column with a name; a line that is too short leaves columns out.
column : String → List String → List String → Option String
column name [] values = none
column name (head ∷ heads) [] = none
column name (head ∷ heads) (value ∷ values) = elim (column name heads values) [
  | some later ↦ some later
  | none ↦ if head == name then some value else none
]

abbrev present : Option String → String
present none = ""
present (some value) = value

unfoldable pub entry_of : List String → List String → Entry
unfolding column
entry_of heads values = record {
  engine = present (column "engine" heads values);
  case_id = present (column "case_id" heads values);
  status = present (column "status" heads values);
  category = present (column "category" heads values);
}

abbrev pub content : List String → List String
content lines = keep (λ line. not (starts_with line "#")) lines

-- `csv.DictReader` over lines without quotes: the first gives the names, and blank lines are left out.
pub read_rows : List String → List Entry
unfolding split_tabs entry_of
read_rows [] = []
read_rows (header ∷ lines) =
    map (λ line. entry_of (split_tabs header) (split_tabs line))
      (keep (λ line. not (line == "")) lines)

-- Loading

abbrev pub same_key : Entry → Entry → Bool
same_key a b = a.engine == b.engine && a.case_id == b.case_id

abbrev pub incomplete : Entry → Bool
incomplete row = row.engine == "" || (row.case_id == "" || (row.status == "" || row.category == ""))

abbrev pub failing : String → Bool
failing status = contains ("failed" ∷ "error" ∷ []) status

-- The loop; `known` is the dict built so far, in its order.
unfoldable pub collect : String → ℕ → List Entry → List Entry → Outcome (List Entry)
collect path number known [] = ok known
collect path number known (row ∷ rows) = do
  refuse (incomplete row) (
      value_error (
        "Known-failures row "
        <> show number
        <> " needs engine, case_id, status, category: "
        <> path))
  refuse (not (failing row.status)) (
      value_error (
        "Known-failures row "
        <> show number
        <> " has status '"
        <> row.status
        <> "'; use failed or error: "
        <> path))
  refuse (any (same_key row) known)
      (value_error ("Duplicate known failure " <> row.engine <> " " <> row.case_id <> ": " <> path))
  collect path (suc number) (known ++ (row ∷ [])) rows

unfoldable pub load_known_failures : String → List String → Outcome (List Entry)
unfolding collect read_rows
load_known_failures path lines = collect path 1 [] (read_rows (content lines))

-- Applying

abbrev pub names : Entry → Result → Bool
names entry row = row.engine == entry.engine && row.case_id == entry.case_id

-- `by_key.get(key)`: the last result with the key.
unfoldable pub find_last : Entry → List Result → Option Result
find_last entry [] = none
find_last entry (row ∷ rows) = elim (find_last entry rows) [
  | some found ↦ some found
  | none ↦ if names entry row then some row else none
]

-- `row.known = category`, for the last result with the key.
unfoldable pub mark_last : Entry → List Result → List Result
unfolding find_last
mark_last entry [] = []
mark_last entry (row ∷ rows) =
    let rest = mark_last entry rows in
    elim (find_last entry rows) [
      | some found ↦ row ∷ rest
      | none ↦ if names entry row then record row { known = entry.category } ∷ rows else row ∷ rows
    ]

abbrev pub stale : Entry → String → Result
stale entry actual = record {
  engine = "harness";
  case_id = "known-failures:" <> entry.engine <> ":" <> entry.case_id;
  path = "";
  kind = "";
  expected = entry.status;
  actual = actual;
  status = "error";
  elapsed_us = 0;
  message =
      entry.engine <> " " <> entry.case_id <> " is listed as a known " <> entry.status <> " ("
      <> entry.category <> ") but is now " <> actual <> ". Update the known-failures list.";
  known = "";
  exit_code = none;
  lane = "core";
  catalog_expected = "";
  expectation_adjustment = "";
}

-- One round of the loop of `apply_known_failures`: the results and the new stale entries.
apply_one : Entry → List Result → List Result × List Result
unfolding mark_last
apply_one entry results =
    if not (any (λ row. row.engine == entry.engine) results)
    then (results, [])
    else elim (find_last entry results) [
      | none ↦ (results, stale entry "absent from the catalog" ∷ [])
      | some row ↦
          if row.status == entry.status
          then (mark_last entry results, [])
          else (results, stale entry row.status ∷ [])
    ]

-- A round changes only `known` fields, so it may look keys up in the results of the round before.
unfoldable pub apply_known_failures : List Result → List Entry → List Result × List Result
unfolding apply_one
apply_known_failures results [] = (results, [])
apply_known_failures results (entry ∷ known) =
    let (marked, old) = apply_one entry results in
    let (final, more) = apply_known_failures marked known in (final, old ++ more)

-- Writing

unfoldable pub observed_category : Result → String
observed_category row =
    if row.actual == "ACCEPT"
    then "accepts input that must be rejected"
    else if row.actual == "REJECT"
    then "rejects input that must be accepted"
    else if row.actual == "timeout"
    then "timeout"
    else "process error (crash or contract violation)"

abbrev pub written : Result → Bool
written row = not (row.engine == "harness") && failing row.status

unfoldable pub known_entry : Result → Entry
unfolding observed_category
known_entry row = record {
  engine = row.engine;
  case_id = row.case_id;
  status = row.status;
  category = if row.known == "" then observed_category row else row.known;
}

abbrev pub fields_of : Entry → List String
fields_of entry = entry.engine ∷ entry.case_id ∷ entry.status ∷ entry.category ∷ []

unfoldable pub write_known_failures : List Result → List String
unfolding known_entry join_tabs
write_known_failures results =
    join_tabs (map field field_names)
    ∷ map (λ row. join_tabs (map field (fields_of (known_entry row)))) (keep written results)
