-- ===== src/Harness/Recorder.antt =====
-- `Recorder` of reports/issue-0154/tools/harness/engines.py: the events of a parse, with adjacent
-- pieces of text collected and joined once.
pub mod Merge
mod Tests
use Prim.Native.String
use xpact.Prelude.{String, Option, List, [], ◌∷◌, ◌++◌, map, ◌<>◌}

-- An event as the handlers report it.
pub data Event : Type 0 where
  chars : String → Event
  other : (kind : String) → List String → Event

-- What the list holds: the pieces of a text, or another event.
pub data Item : Type 0 where
  pieces : List String → Item
  plain : (kind : String) → List String → Item

abbrev pub item_of : Event → Item
item_of (chars text) = pieces (text ∷ [])
item_of (other kind fields) = plain kind fields

-- The last item and the event after it.
abbrev pub put : Item → Event → List Item
put (pieces texts) (chars text) = pieces (texts ++ (text ∷ [])) ∷ []
put (pieces texts) (other kind fields) = pieces texts ∷ plain kind fields ∷ []
put (plain kind fields) event = plain kind fields ∷ item_of event ∷ []

unfoldable pub add : List Item → Event → List Item
add [] event = item_of event ∷ []
add (item ∷ []) event = put item event
add (item ∷ next ∷ items) event = item ∷ add (next ∷ items) event

-- `"".join(texts)`
abbrev pub joined : List String → String
joined [] = ""
joined (text ∷ texts) = text <> joined texts

abbrev pub event_of : Item → Event
event_of (pieces texts) = chars (joined texts)
event_of (plain kind fields) = other kind fields

unfoldable pub events : List Item → List Event
events items = map event_of items

-- The handlers' calls in order.
unfoldable pub record_all : List Item → List Event → List Item
unfolding add
record_all items [] = items
record_all items (event ∷ rest) = record_all (add items event) rest
