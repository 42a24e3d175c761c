-- ===== src/Harness/Chunks.antt =====
-- `chunks` and the feeding loops of `parse_expat` and `parse_xpact` in
-- reports/issue-0154/tools/harness/engines.py. The parser is an interface.
pub mod Whole
pub mod Same
mod Tests
use xpact.Prelude.{
  ℕ, zero, suc, ◌+◌, ◌-◌, String, Bool, true, false, not, Option, none, some, List, [], ◌∷◌, ◌++◌,
  map, length, nat_eq, if◌then◌else◌,
}
use xpact.Prelude.Outcome.{Outcome, ok, err, value_error, ◌>>=◌, ◌>>◌, refuse}

-- `bytes`
abbrev pub Bytes : Type 0
Bytes = List ℕ

-- `data[:n]` and `data[n:]`
unfoldable pub take : ℕ → Bytes → Bytes
take zero xs = []
take (suc n) [] = []
take (suc n) (x ∷ xs) = x ∷ take n xs

unfoldable pub drop : ℕ → Bytes → Bytes
drop zero xs = xs
drop (suc n) [] = []
drop (suc n) (x ∷ xs) = drop n xs

-- The forms of `split`: `None`, "byte", "every:N", and one position.
pub data Split : Type 0 where
  whole byte : Split
  every at : ℕ → Split

-- `[data[i:i + n] for i in range(0, len(data), n)]`, with a round for each byte at most.
unfoldable pub slices : ℕ → ℕ → Bytes → List Bytes
unfolding take drop
slices zero n xs = []
slices (suc rounds) n [] = []
slices (suc rounds) n (x ∷ xs) = take n (x ∷ xs) ∷ slices rounds n (drop n (x ∷ xs))

-- `pieces or [b""]`
abbrev pub or_empty : List Bytes → List Bytes
or_empty [] = [] ∷ []
or_empty (piece ∷ pieces) = piece ∷ pieces

unfoldable pub chunks : Bytes → Split → Outcome (List Bytes)
unfolding slices
chunks xs whole = ok (xs ∷ [])
chunks xs byte = ok (map (λ x. x ∷ []) xs)
chunks xs (every n) = do
  refuse (nat_eq n 0) (value_error "range() arg 3 must not be zero")
  ok (or_empty (slices (length xs) n xs))
chunks xs (at k) = ok (take k xs ∷ drop k xs ∷ [])

-- A parser by its state: `Parse` with the flag for the last piece, and what it reports.
pub record Parser (S : Type 0) : Type 0 where
  pub feed : S → Bytes → Bool → S × Bool
  pub code : S → ℕ
  pub message : S → String
  pub line : S → ℕ
  pub column : S → ℕ
  pub events : S → List String

pub record Parsed : Type 0 where
  pub verdict : String
  pub error : ℕ
  pub message : String
  pub line : ℕ
  pub column : ℕ
  pub events : List String

-- `init` and `final`: `parts[:-1]`, and `parts[-1] if parts else b""`.
abbrev pub init : List Bytes → List Bytes
init [] = []
init (part ∷ []) = []
init (part ∷ next ∷ parts) = part ∷ init (next ∷ parts)

abbrev pub final : List Bytes → Bytes
final [] = []
final (part ∷ []) = part
final (part ∷ next ∷ parts) = final (next ∷ parts)

abbrev pub is_last : List Bytes → Bool
is_last [] = true
is_last (part ∷ parts) = false

-- The state of a parser and whether it has not failed; a failure ends the loop.
abbrev pub unless_failed : {S : Type 0} → S × Bool → (S → S × Bool) → S × Bool
unless_failed (state, true) next = next state
unless_failed (state, false) next = (state, false)

module _ {S : Type 0} (parser : Parser S) where
  abbrev pub accepted : S → Parsed
  accepted state = record {
    verdict = "ACCEPT";
    error = 0;
    message = "";
    line = 0;
    column = 0;
    events = parser.events state;
  }

  abbrev pub rejected : S → Parsed
  rejected state = record {
    verdict = "REJECT";
    error = parser.code state;
    message = parser.message state;
    line = parser.line state;
    column = parser.column state;
    events = parser.events state;
  }

  abbrev pub finish : S × Bool → Parsed
  finish (state, true) = accepted state
  finish (state, false) = rejected state

  -- `parse_expat`: `Parse` raises where it fails, which ends the `try` block.
  unfoldable pub feed_parts : S → List Bytes → S × Bool
  feed_parts state [] = (state, true)
  feed_parts state (part ∷ parts) =
      unless_failed (parser.feed state part false) (λ after. feed_parts after parts)

  unfoldable pub parse_expat : S → List Bytes → Parsed
  unfolding feed_parts
  parse_expat state parts = finish (
      unless_failed (feed_parts state (init parts)) (λ after. parser.feed after (final parts) true))

  -- `parse_xpact`: the loop ends by the first `XML_Parse` that fails.
  unfoldable pub feed_all : S → List Bytes → S × Bool
  feed_all state [] = (state, true)
  feed_all state (part ∷ parts) =
      unless_failed (parser.feed state part (is_last parts)) (λ after. feed_all after parts)

  unfoldable pub parse_xpact : S → List Bytes → Parsed
  unfolding feed_all
  parse_xpact state parts = finish (feed_all state (or_empty parts))
