-- ===== src/Harness/Chunks/Same.antt =====
-- Both engines' loops feed a parser alike.
use xpact.Prelude.{◌≡◌, refl, ap, Bool, true, false, List, [], ◌∷◌}
use xpact.Harness.Chunks.{
  Bytes, Parser, init, final, or_empty, unless_failed, feed_parts, feed_all, finish, parse_expat,
  parse_xpact,
}

unless_failed-done : {S : Type 0} (r : S × Bool) → unless_failed r (λ after. (after, true)) ≡ r
unless_failed-done (state, true) = refl
unless_failed-done (state, false) = refl

unless_failed_assoc :
    {S : Type 0} (r : S × Bool) (f g h : S → S × Bool)
    → ((state : S) → h state ≡ unless_failed (f state) g)
    → unless_failed r h ≡ unless_failed (unless_failed r f) g
unless_failed_assoc (state, true) f g h e = e state
unless_failed_assoc (state, false) f g h e = refl

module _ {S : Type 0} (parser : Parser S) where
  feed_all-or_empty :
      (parts : List Bytes) (state : S)
      → feed_all parser state (or_empty parts)
        ≡ unless_failed
            (feed_parts parser state (init parts))
            (λ after. parser.feed after (final parts) true)
  unfolding feed_all feed_parts
  feed_all-or_empty [] state = unless_failed-done (parser.feed state [] true)
  feed_all-or_empty (part ∷ []) state = unless_failed-done (parser.feed state part true)
  feed_all-or_empty (part ∷ next ∷ parts) state =
      unless_failed_assoc (parser.feed state part false)
        (λ after. feed_parts parser after (init (next ∷ parts)))
        (λ after. parser.feed after (final (next ∷ parts)) true)
        (λ after. feed_all parser after (next ∷ parts)) (feed_all-or_empty (next ∷ parts))

  -- For the same parser and the same chunks the loop over pyexpat and the loop over the C API give
  -- the same result: the last chunk alone is final, an input without chunks is one empty final
  -- chunk, and the first failure ends the parse.
  pub parse_xpact-eq-parse_expat :
      (state : S) (parts : List Bytes)
      → parse_xpact parser state parts ≡ parse_expat parser state parts
  unfolding parse_xpact parse_expat
  parse_xpact-eq-parse_expat state parts = ap (finish parser) (feed_all-or_empty parts state)
