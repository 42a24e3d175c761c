-- ===== src/Expat/Events.antt =====
-- `joined_events` of student/results/expat-2.8.1/compare.py.
pub mod Normal
mod Tests
use Prim.Native.Char.{Char, code}
use Prim.Native.String
use xpact.Prelude.{
  String, Bool, true, false, not, ◌&&◌, List, [], ◌∷◌, map, ◌==◌, ◌<>◌, contains, nat_eq,
  if◌then◌else◌,
}

abbrev in_front : Char → List String → List String
in_front c [] = String.◌∷◌ c "" ∷ []
in_front c (piece ∷ pieces) = String.◌∷◌ c piece ∷ pieces

-- `events.split(" | ")`
unfoldable pub split_bars : String → List String
split_bars String.[] = "" ∷ []
split_bars (String.◌∷◌ c String.[]) = String.◌∷◌ c "" ∷ []
split_bars (String.◌∷◌ c (String.◌∷◌ d String.[])) = String.◌∷◌ c (String.◌∷◌ d "") ∷ []
split_bars (String.◌∷◌ c (String.◌∷◌ d (String.◌∷◌ e s))) =
    let after = split_bars s in
    let next = split_bars (String.◌∷◌ d (String.◌∷◌ e s)) in
    if nat_eq (code c) 32 && (nat_eq (code d) 124 && nat_eq (code e) 32)
    then "" ∷ after
    else in_front c next

abbrev widen : Char → String × String → String × String
widen c (before, after) = (String.◌∷◌ c before, after)

-- `piece.partition(":")` without the separator.
unfoldable pub partition_colon : String → String × String
partition_colon String.[] = ("", "")
partition_colon (String.◌∷◌ c s) =
    let rest = partition_colon s in if nat_eq (code c) 58 then ("", s) else widen c rest

-- `value.startswith("<")`
abbrev pub opens : String → Bool
opens String.[] = false
opens (String.◌∷◌ c s) = nat_eq (code c) 60

-- `value.endswith(">")`
unfoldable pub closes : String → Bool
closes String.[] = false
closes (String.◌∷◌ c String.[]) = nat_eq (code c) 62
closes (String.◌∷◌ c (String.◌∷◌ d s)) = closes (String.◌∷◌ d s)

abbrev pub Event : Type 0
Event = String × String

-- Whether an event continues the one before it.
abbrev pub continues : Event → Event → Bool
continues (kind, value) (other, more) =
    contains ("text" ∷ "default" ∷ []) other
    && (kind == other && (not (opens more) && not (closes value)))

-- The loop, from the event that stands last in `out` on.
unfoldable pub join_from : Event → List Event → List Event
unfolding closes
join_from last [] = last ∷ []
join_from (kind, value) ((other, more) ∷ events) =
    let joined = join_from (kind, value <> more) events in
    let apart = join_from (other, more) events in
    if continues (kind, value) (other, more) then joined else (kind, value) ∷ apart

unfoldable pub join : List Event → List Event
unfolding join_from
join [] = []
join (event ∷ events) = join_from event events

unfoldable pub joined_events : String → List Event
unfolding join split_bars partition_colon
joined_events events = if events == "" then [] else join (map partition_colon (split_bars events))
