-- ===== src/Harness/Worker/First.antt =====
-- The number that `explain_split` reports is that of the first difference.
use xpact.Prelude.{
  ℕ, zero, suc, ◌+◌, ◌≤◌, ◌≡◌, ◌↔◌, Bool, true, false, List, [], ◌∷◌, length, arith, inl, inr,
  Bool-cases,
}
use xpact.Harness.Worker.{first_different, min, at}

module _ {Event : Type 0} (same : Event → Event → Bool) where
  -- The events before number `n` are the same, and there the events differ or a list ends.
  abbrev pub IsFirst : ℕ → List Event → List Event → Type 0
  IsFirst zero (x ∷ a) (y ∷ b) = same x y ≡ false
  IsFirst zero [] b = Unit
  IsFirst zero (x ∷ a) [] = Unit
  IsFirst (suc n) (x ∷ a) (y ∷ b) = (same x y ≡ true) × IsFirst n a b
  IsFirst (suc n) [] b = ⊥
  IsFirst (suc n) (x ∷ a) [] = ⊥

  first_different-ge :
      (a b : List Event) (k default : ℕ)
      → k + min (length a) (length b) ≤ default
      → k ≤ first_different same k a b default
  unfolding first_different
  first_different-ge [] b k default h = omega (arith, h)
  first_different-ge (x ∷ a) [] k default h = omega (arith, h)
  first_different-ge (x ∷ a) (y ∷ b) k default h =
      let later = first_different-ge a b (suc k) default (ground (arith, h)) in
      ground (arith, later)

  IsFirst-first_different :
      (a b : List Event) (k default n : ℕ)
      → default ≡ k + min (length a) (length b)
      → IsFirst n a b ↔ (n + k ≡ first_different same k a b default)
  unfolding first_different
  IsFirst-first_different [] b k default zero e = ((λ h. ground (arith, e)), (λ h. tt))
  IsFirst-first_different [] b k default (suc n) e = ((λ h. absurd h), (λ h. ground (arith, e, h)))
  IsFirst-first_different (x ∷ a) [] k default zero e = ((λ h. ground (arith, e)), (λ h. tt))
  IsFirst-first_different (x ∷ a) [] k default (suc n) e =
      ((λ h. absurd h), (λ h. ground (arith, e, h)))
  IsFirst-first_different (x ∷ a) (y ∷ b) k default zero e =
      let later = first_different-ge a b (suc k) default (ground (arith, e)) in
      ((λ h. ground (arith, h)), (λ h. ground (arith, h, later)))
  IsFirst-first_different (x ∷ a) (y ∷ b) k default (suc n) e =
      let later = IsFirst-first_different a b (suc k) default n (ground (arith, e)) in
      (
        (λ h. ground (arith, h.0, later.0 h.1)),
        (λ h. elim (Bool-cases (same x y)) [
          | inl s ↦ (s, later.1 (ground (arith, h, s)))
          | inr d ↦ absurd (ground (arith, h, d))
        ]),
      )

  -- The reported number is the one and only number before which the two lists hold the same events,
  -- and at which they hold different ones or one of them ends.
  pub at-IsFirst : (a b : List Event) (n : ℕ) → IsFirst n a b ↔ (n ≡ at same a b)
  unfolding at
  at-IsFirst a b n =
      let shifted = IsFirst-first_different a b 0 (min (length a) (length b)) n (omega arith) in
      ((λ h. ground (arith, shifted.0 h)), (λ h. shifted.1 (ground (arith, h))))
