-- ===== src/Harness/Recorder/Tests.antt =====
-- The events of a small document.
use xpact.Prelude.{◌≡◌, refl, List, [], ◌∷◌}
use xpact.Harness.Recorder.{Event, chars, other, add, events, record_all}
use xpact.Harness.Recorder.Merge.{merge, IsMerged, events-eq-merge}

abbrev reported_events : List Event
reported_events =
    other "start" ("a" ∷ []) ∷ chars "x" ∷ chars "y" ∷ other "end" ("a" ∷ []) ∷ chars "z" ∷ []

events-merged :
    events (record_all [] reported_events)
    ≡ other "start" ("a" ∷ []) ∷ chars "xy" ∷ other "end" ("a" ∷ []) ∷ chars "z" ∷ []
unfolding events record_all add
events-merged = refl

events-eq-merge_example :
    (events (record_all [] reported_events) ≡ merge reported_events)
    × IsMerged (events (record_all [] reported_events))
events-eq-merge_example = events-eq-merge reported_events
