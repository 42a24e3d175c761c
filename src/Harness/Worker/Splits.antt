-- ===== src/Harness/Worker/Splits.antt =====
-- The positions that `compare_splits` reports.
use xpact.Prelude.{
  ℕ, zero, suc, ◌+◌, ◌-◌, ◌≤◌, ◌<◌, ◌≡◌, ◌↔◌, refl, sym, ap, ◌∙◌, Bool, true, false, not, List, leb,
  arith, inl, inr, Bool-cases, any, nat_eq, nat_eq-eq,
}
use xpact.Harness.Chunks.{Split, whole}
use xpact.Harness.Worker.{positions, compare_splits}

-- `k in numbers`
abbrev pub holds : List ℕ → ℕ → Bool
holds numbers k = any (nat_eq k) numbers

holds-positions :
    (bad : ℕ → Bool) (first rest k : ℕ)
    → (holds (positions bad first rest) k ≡ true)
      ↔ ((first ≤ k) × (k < first + rest) × (bad k ≡ true))
holds-positions bad first zero k = ((λ h. cc), (λ h. absurd (omega (arith, h.0, h.1))))
holds-positions bad first (suc rest) k =
    let (forth, back) = holds-positions bad (suc first) rest k in
    elim (Bool-cases (nat_eq k first)) [
      | inl e ↦
          let here = nat_eq-eq k first e in
          (
            (λ h. (
              omega (arith, here),
              omega (arith, here),
              elim (Bool-cases (bad first)) [
                | inl b ↦ ap bad here ∙ b
                | inr b ↦ (forth (rw b at h)).2
              ],
            )),
            (λ h. let b = ap bad (sym here) ∙ h.2 in rw b (rw e refl)),
          )
      | inr e ↦ (
        (λ h. elim (Bool-cases (bad first)) [
          | inl b ↦
              let (low, high, found) = forth (rw e at (rw b at h)) in
              (omega (arith, low), omega (arith, high), found)
          | inr b ↦
              let (low, high, found) = forth (rw b at h) in
              (omega (arith, low), omega (arith, high), found)
        ]),
        (λ h.
            let later = back (ground (arith, h.0, e), omega (arith, h.1), h.2) in
            elim (Bool-cases (bad first)) [ inl b ↦ rw b (rw e later) | inr b ↦ rw b later ]),
      )
    ]

module _ {Key : Type 0} (same : Key → Key → Bool) (parse : Split → Key) (size limit : ℕ) where
  -- For an input within the limit exactly the positions strictly inside it are reported at which a
  -- split gives another result than the whole input does.
  pub compare_splits-exact :
      size ≤ limit
      → (k : ℕ)
      → (holds (compare_splits same parse size limit).bad_splits k ≡ true)
        ↔ ((0 < k) × (k < size) × (same (parse (Split.at k)) (parse whole) ≡ false))
  unfolding compare_splits
  compare_splits-exact within k =
      let bad = λ (i : ℕ). not (same (parse (Split.at i)) (parse whole)) in
      let tested : leb size limit ≡ true = ground (arith, within) in
      let (forth, back) = holds-positions bad 1 (size - 1) k in
      rw tested (
        (λ h.
            let (low, high, found) = forth h in
            (omega (arith, low), omega (arith, high, low), ground (arith, found))),
        (λ h. back (omega (arith, h.0), omega (arith, h.1), ground (arith, h.2))),
      )
