-- ===== src/Expat/Events/Tests.antt =====
-- Texts that are joined and texts that are not.
use xpact.Prelude.{◌≡◌, refl, List, [], ◌∷◌}
use xpact.Expat.Events.{Event, split_bars, partition_colon, closes, joined_events}

two_texts :
    joined_events "start:a | text:b:1 | text:c | default:<x> | default:d"
    ≡ ("start", "a") ∷ ("text", "b:1c") ∷ ("default", "<x>") ∷ ("default", "d") ∷ []
unfolding joined_events split_bars partition_colon closes
two_texts = refl

abbrev events : List Event
events = ("text", "b") ∷ ("text", "c") ∷ ("default", "<x>") ∷ ("default", "d") ∷ []
