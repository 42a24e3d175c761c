-- ===== src/Expat/Rows/Kinds.antt =====
-- Which rows have no difference, and what swapping the libraries changes.
use xpact.Prelude.{String, ◌≡◌, ◌≢◌, ◌⊎◌, refl, true, List, [], ◌∷◌, ◌++◌, ◌==◌, arith, eq_iff}
use xpact.Expat.Events.{Event, joined_events}
use xpact.Expat.Rows.{Run, position, same_events, noted, classify}

-- The rows agree in each property; the position is one only for a rejected input.
abbrev pub Agrees : Run → Run → Type 0
Agrees e x =
    (e.verdict ≡ x.verdict)
    × (e.error_code ≡ x.error_code)
    × ((e.verdict ≢ "REJECT") ⊎ (position e ≡ position x))
    × (e.events ≡ x.events)
    × (e.failed_call ≡ x.failed_call)

noted-true : (kind : String) (rest : List String) → noted true kind ++ rest ≢ []
noted-true kind rest h = cc h

eq_comm : (a b : String) → (a == b) ≡ (b == a)
eq_comm a b = ground (arith, eq_iff a b, eq_iff b a)

same_events_comm : (a b : List Event) → same_events a b ≡ same_events b a
same_events_comm [] [] = refl
same_events_comm [] (event ∷ events) = refl
same_events_comm (event ∷ events) [] = refl
same_events_comm ((kind, value) ∷ events) ((other, more) ∷ others) =
    rw (eq_comm kind other, eq_comm value more, same_events_comm events others) refl

module _ (e x : Run) (same : e.verdict ≡ x.verdict) where
  -- Where both libraries give the same verdict, it does not matter which of them is the reference.
  pub classify_comm : classify x e ≡ classify e x
  unfolding classify
  classify_comm =
      rw
        (
          eq_comm x.verdict e.verdict,
          eq_comm x.error_code e.error_code,
          eq_comm (position x) (position e),
          eq_comm x.events e.events,
          same_events_comm (joined_events x.events) (joined_events e.events),
          eq_comm x.failed_call e.failed_call,
        )
        (rw same refl)
