-- ===== src/Expat/Rows.antt =====
-- `classify`, `finding` and the rows of `compare` in student/results/expat-2.8.1/compare.py.
pub mod Kinds
mod Tests
use xpact.Prelude.{
  String, Bool, true, false, not, ◌&&◌, ◌||◌, List, [], ◌∷◌, ◌++◌, ◌==◌, ◌<>◌, contains,
  if◌then◌else◌,
}
use xpact.Expat.Events.{Event, joined_events}

-- A row of `results.tsv`.
pub record Run : Type 0 where
  pub id : String
  pub group : String
  pub input : String
  pub callbacks : String
  pub chunks : String
  pub input_bytes : String
  pub calls : String
  pub verdict : String
  pub error_code : String
  pub line : String
  pub column : String
  pub byte_index : String
  pub failed_call : String
  pub events : String

unfoldable pub position : Run → String
position row = row.line <> ":" <> row.column <> " (byte " <> row.byte_index <> ")"

abbrev pub same_event : Event → Event → Bool
same_event (kind, value) (other, more) = kind == other && value == more

-- `joined_events(…) == joined_events(…)`
abbrev pub same_events : List Event → List Event → Bool
same_events [] [] = true
same_events [] (event ∷ events) = false
same_events (event ∷ events) [] = false
same_events (event ∷ events) (other ∷ others) = same_event event other && same_events events others

-- `if test: kinds.append(kind)`
abbrev pub noted : Bool → String → List String
noted test kind = if test then kind ∷ [] else []

unfoldable pub classify : Run → Run → List String
classify e x =
    noted (not (e.verdict == x.verdict)) "verdict"
    ++ (noted (not (e.error_code == x.error_code)) "error-code"
        ++ (noted (e.verdict == "REJECT" && not (position e == position x)) "position"
            ++ (noted (not (e.events == x.events)) (
                  if not (same_events (joined_events e.events) (joined_events x.events))
                  then "events"
                  else "split-only")
                ++ noted (not (e.failed_call == x.failed_call)) "failed-call")))

unfoldable pub finding : Run → List String → List String
finding e kinds =
    noted (e.group == "utf8" && contains kinds "position") "utf8-position"
    ++ (noted (e.group == "utf8" && contains kinds "events") "utf8-no-events"
        ++ (noted
              (e.input == "c02-trailing-junk"
                && (contains kinds "error-code" || contains kinds "position"))
              "junk-code"
            ++ (noted (e.input == "c02-mismatched" && contains kinds "events") "default-mismatch"
                ++ noted (e.group == "cr" && contains kinds "events") "default-cr")))
