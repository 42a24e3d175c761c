-- ===== src/Harness/Chunks/Whole.antt =====
-- The chunks of an input are the input, in pieces of the size that was asked for.
use xpact.Prelude.{
  ℕ, zero, suc, ◌≤◌, ◌<◌, ◌≡◌, refl, subst, List, [], ◌∷◌, ◌++◌, length, All, arith, inl, inr, ◌⊎◌,
}
use xpact.Prelude.Outcome.{ok, ok_inj}
use xpact.Harness.Chunks.{Bytes, take, drop, every, slices, or_empty, chunks}

-- `b"".join(pieces)`
abbrev pub concat : List Bytes → Bytes
concat [] = []
concat (piece ∷ pieces) = piece ++ concat pieces

length-take-le : (n : ℕ) (xs : Bytes) → length (take n xs) ≤ n
unfolding take
length-take-le zero xs = omega arith
length-take-le (suc n) [] = omega arith
length-take-le (suc n) (x ∷ xs) = omega (arith, length-take-le n xs)

-- A piece that is neither empty nor longer than `n`.
abbrev pub IsPiece : ℕ → Bytes → Type 0
IsPiece n piece = (0 < length piece) × (length piece ≤ n)

slices-IsPiece : (rounds n : ℕ) (xs : Bytes) → All (IsPiece (suc n)) (slices rounds (suc n) xs)
unfolding slices
slices-IsPiece zero n xs = tt
slices-IsPiece (suc rounds) n [] = tt
slices-IsPiece (suc rounds) n (x ∷ xs) = (
  (omega arith, length-take-le (suc n) (x ∷ xs)),
  slices-IsPiece rounds n (drop (suc n) (x ∷ xs)),
)

IsPiece-or_empty :
    (n : ℕ) (xs : Bytes)
    → ((xs ≡ []) × (or_empty (slices (length xs) (suc n) xs) ≡ [] ∷ []))
      ⊎ All (IsPiece (suc n)) (or_empty (slices (length xs) (suc n) xs))
unfolding slices
IsPiece-or_empty n [] = inl (refl, refl)
IsPiece-or_empty n (x ∷ xs) = inr (slices-IsPiece (length (x ∷ xs)) n (x ∷ xs))

pieces_of :
    (xs : Bytes) (n : ℕ) (parts : List Bytes)
    → chunks xs (every n) ≡ ok parts
    → ((xs ≡ []) × (parts ≡ [] ∷ [])) ⊎ All (IsPiece n) parts
unfolding chunks
pieces_of xs zero parts h = cc
pieces_of xs (suc n) parts h =
    subst (λ p. ((xs ≡ []) × (p ≡ [] ∷ [])) ⊎ All (IsPiece (suc n)) p)
      (ok_inj (or_empty (slices (length xs) (suc n) xs)) parts (ground (arith, h)))
      (IsPiece-or_empty n xs)

module _ (xs : Bytes) (n : ℕ) (parts : List Bytes) (sliced : chunks xs (every n) ≡ ok parts) where
  -- Slices of `n` bytes are neither empty nor longer than `n`, but for the one empty slice of an
  -- empty input.
  pub chunks-IsPiece : ((xs ≡ []) × (parts ≡ [] ∷ [])) ⊎ All (IsPiece n) parts
  chunks-IsPiece = pieces_of xs n parts sliced
