-- ===== src/Harness/Chunks/Tests.antt =====
-- Inputs and their chunks, and a parser that counts bytes.
use xpact.Prelude.{ℕ, ◌+◌, ◌≡◌, refl, ◌⊎◌, List, [], ◌∷◌, length, All, leb}
use xpact.Prelude.Outcome.{ok, err, value_error}
use xpact.Harness.Chunks.{
  Bytes, take, drop, every, slices, chunks, Parser, parse_expat, feed_all, parse_xpact,
}
use xpact.Harness.Chunks.Whole.{IsPiece, chunks-IsPiece}
use xpact.Harness.Chunks.Same.{parse_xpact-eq-parse_expat}

abbrev five_bytes : Bytes
five_bytes = 60 ∷ 97 ∷ 47 ∷ 62 ∷ 10 ∷ []

abbrev three_chunks : List Bytes
three_chunks = (60 ∷ 97 ∷ []) ∷ (47 ∷ 62 ∷ []) ∷ (10 ∷ []) ∷ []

chunks-every : chunks five_bytes (every 2) ≡ ok three_chunks
unfolding chunks slices take drop
chunks-every = refl

chunks-every_zero : chunks five_bytes (every 0) ≡ err (value_error "range() arg 3 must not be zero")
unfolding chunks
chunks-every_zero = refl

chunks-every_empty : chunks [] (every 3) ≡ ok ([] ∷ [])
unfolding chunks slices
chunks-every_empty = refl

chunks-IsPiece_example :
    ((five_bytes ≡ []) × (three_chunks ≡ [] ∷ [])) ⊎ All (IsPiece 2) three_chunks
chunks-IsPiece_example = chunks-IsPiece five_bytes 2 three_chunks chunks-every

-- A parser that fails past four bytes.
abbrev counting : Parser ℕ
counting = record {
  feed = λ seen part last. (seen + length part, leb (seen + length part) 4);
  code = λ seen. seen;
  message = λ seen. "too long";
  line = λ seen. 1;
  column = λ seen. seen;
  events = λ seen. [];
}

parse_xpact-rejected : (parse_xpact counting 0 three_chunks).verdict ≡ "REJECT"
unfolding parse_xpact feed_all
parse_xpact-rejected = refl

parse_xpact-accepted : (parse_xpact counting 0 []).verdict ≡ "ACCEPT"
unfolding parse_xpact feed_all
parse_xpact-accepted = refl

parse_xpact-eq-parse_expat_example :
    parse_xpact counting 0 three_chunks ≡ parse_expat counting 0 three_chunks
parse_xpact-eq-parse_expat_example = parse_xpact-eq-parse_expat counting 0 three_chunks
