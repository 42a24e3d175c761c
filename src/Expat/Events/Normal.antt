-- ===== src/Expat/Events/Normal.antt =====
-- Joined events are in normal form.
use xpact.Prelude.{◌≡◌, false, List, [], ◌∷◌}
use xpact.Expat.Events.{Event, continues}

-- No event continues the one before it.
abbrev pub Separated : List Event → Type 0
Separated [] = Unit
Separated (event ∷ []) = Unit
Separated (event ∷ next ∷ events) = (continues event next ≡ false) × Separated (next ∷ events)
