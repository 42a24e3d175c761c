-- ===== src/Harness/Recorder/Merge.antt =====
-- The recorder against a reference: how texts are divided does not matter.
use text.Mathlib.TextLemmas.{append-nil, nil-append, append_assoc}
use xpact.Prelude.{String, ◌≡◌, refl, sym, ap, ◌∙◌, subst, List, [], ◌∷◌, ◌++◌, ◌<>◌}
use xpact.Harness.Recorder.{
  Event, chars, other, Item, pieces, plain, item_of, add, joined, event_of, events, record_all,
}

-- An event in front of merged events.
abbrev pub glue : Event → List Event → List Event
glue (chars text) (chars more ∷ rest) = chars (text <> more) ∷ rest
glue (chars text) [] = chars text ∷ []
glue (chars text) (other kind fields ∷ rest) = chars text ∷ other kind fields ∷ rest
glue (other kind fields) rest = other kind fields ∷ rest

-- The events with adjacent texts in one piece.
abbrev pub merge : List Event → List Event
merge [] = []
merge (event ∷ rest) = glue event (merge rest)

glue-chars :
    (a b : String) (rest : List Event)
    → glue (chars a) (glue (chars b) rest) ≡ glue (chars (a <> b)) rest
glue-chars a b [] = refl
glue-chars a b (chars c ∷ rest) = ap (λ text. chars text ∷ rest) (sym (append_assoc a b c))
glue-chars a b (other kind fields ∷ rest) = refl

joined-snoc :
    (texts : List String) (text : String) → joined (texts ++ (text ∷ [])) ≡ joined texts <> text
joined-snoc [] text = append-nil text ∙ sym (nil-append text)
joined-snoc (first ∷ texts) text =
    ap (λ rest. first <> rest) (joined-snoc texts text)
    ∙ sym (append_assoc first (joined texts) text)

add-cons :
    (item : Item) (items : List Item) (event : Event)
    → (first : Item) × (later : List Item) × (add (item ∷ items) event ≡ first ∷ later)
unfolding add
add-cons item (next ∷ items) event = (item, add (next ∷ items) event, refl)
add-cons (pieces texts) [] (chars text) = (pieces (texts ++ (text ∷ [])), [], refl)
add-cons (pieces texts) [] (other kind fields) = (pieces texts, plain kind fields ∷ [], refl)
add-cons (plain kind fields) [] event = (plain kind fields, item_of event ∷ [], refl)

-- Only the last item changes.
record_all-cons :
    (item next : Item) (items : List Item) (rest : List Event)
    → record_all (item ∷ next ∷ items) rest ≡ item ∷ record_all (next ∷ items) rest
unfolding record_all add
record_all-cons item next items [] = refl
record_all-cons item next items (event ∷ rest) =
    let (first, later, same) = add-cons next items event in
    rw same (record_all-cons item first later rest)

events_one :
    (item : Item) (rest : List Event)
    → events (record_all (item ∷ []) rest) ≡ glue (event_of item) (merge rest)
unfolding events record_all add
events_one (pieces texts) [] = refl
events_one (plain kind fields) [] = refl
events_one (pieces texts) (chars text ∷ rest) =
    events_one (pieces (texts ++ (text ∷ []))) rest
    ∙ ap (λ t. glue (chars t) (merge rest)) (joined-snoc texts text)
    ∙ sym (glue-chars (joined texts) text (merge rest))
events_one (pieces texts) (other kind fields ∷ rest) =
    rw (record_all-cons (pieces texts) (plain kind fields) [] rest)
      (ap (λ more. chars (joined texts) ∷ more) (events_one (plain kind fields) rest))
events_one (plain kind fields) (chars text ∷ rest) =
    rw (record_all-cons (plain kind fields) (pieces (text ∷ [])) [] rest) (
      ap (λ more. other kind fields ∷ more)
        (events_one (pieces (text ∷ [])) rest
          ∙ ap (λ t. glue (chars t) (merge rest)) (append-nil text)))
events_one (plain kind fields) (other name values ∷ rest) =
    rw (record_all-cons (plain kind fields) (plain name values) [] rest)
      (ap (λ more. other kind fields ∷ more) (events_one (plain name values) rest))

events_all : (reported : List Event) → events (record_all [] reported) ≡ merge reported
unfolding events record_all add
events_all [] = refl
events_all (chars text ∷ rest) =
    events_one (pieces (text ∷ [])) rest ∙ ap (λ t. glue (chars t) (merge rest)) (append-nil text)
events_all (other kind fields ∷ rest) = events_one (plain kind fields) rest

-- Between two other events there is at most one text.
abbrev pub IsMerged : List Event → Type 0
IsMerged [] = Unit
IsMerged (event ∷ []) = Unit
IsMerged (chars text ∷ chars more ∷ rest) = ⊥
IsMerged (chars text ∷ other kind fields ∷ rest) = IsMerged (other kind fields ∷ rest)
IsMerged (other kind fields ∷ next ∷ rest) = IsMerged (next ∷ rest)

glue-IsMerged : (event : Event) (rest : List Event) → IsMerged rest → IsMerged (glue event rest)
glue-IsMerged (other kind fields) [] h = tt
glue-IsMerged (other kind fields) (next ∷ rest) h = h
glue-IsMerged (chars text) [] h = tt
glue-IsMerged (chars text) (other kind fields ∷ rest) h = h
glue-IsMerged (chars text) (chars more ∷ []) h = tt
glue-IsMerged (chars text) (chars more ∷ chars last ∷ rest) h = h
glue-IsMerged (chars text) (chars more ∷ other kind fields ∷ rest) h = h

merge-IsMerged : (reported : List Event) → IsMerged (merge reported)
merge-IsMerged [] = tt
merge-IsMerged (event ∷ rest) = glue-IsMerged event (merge rest) (merge-IsMerged rest)

-- The recorder, which collects pieces and joins them once, gives the events with each text merged
-- into the one before it, and no two texts stand side by side.
pub events-eq-merge :
    (reported : List Event)
    → (events (record_all [] reported) ≡ merge reported)
      × IsMerged (events (record_all [] reported))
events-eq-merge reported =
    (events_all reported, subst IsMerged (sym (events_all reported)) (merge-IsMerged reported))
