-- ===== src/Harness/Worker/Tests.antt =====
-- Small lists of events, and an input whose second split changes the result.
use xpact.Prelude.{ℕ, ◌<◌, ◌≡◌, ◌↔◌, refl, true, false, [], ◌∷◌, nat_eq, arith}
use xpact.Harness.Chunks.{Split, whole, byte, every}
use xpact.Harness.Worker.{first_different, at, compare_splits}
use xpact.Harness.Worker.First.{IsFirst, at-IsFirst}
use xpact.Harness.Worker.Splits.{holds, compare_splits-exact}

at-third : at nat_eq (1 ∷ 2 ∷ 3 ∷ []) (1 ∷ 2 ∷ 4 ∷ 5 ∷ []) ≡ 2
unfolding at first_different
at-third = refl

at-prefix : at nat_eq (1 ∷ 2 ∷ []) (1 ∷ 2 ∷ 4 ∷ 5 ∷ []) ≡ 2
unfolding at first_different
at-prefix = refl

at-IsFirst_example :
    IsFirst nat_eq 2 (1 ∷ 2 ∷ 3 ∷ []) (1 ∷ 2 ∷ 4 ∷ 5 ∷ [])
    ↔ (◌≡◌ {A = ℕ} 2 (at nat_eq (1 ∷ 2 ∷ 3 ∷ []) (1 ∷ 2 ∷ 4 ∷ 5 ∷ [])))
at-IsFirst_example = at-IsFirst nat_eq (1 ∷ 2 ∷ 3 ∷ []) (1 ∷ 2 ∷ 4 ∷ 5 ∷ []) 2

-- A parse that fails where the input is split after its second byte.
abbrev fragile : Split → ℕ
fragile whole = 0
fragile byte = 1
fragile (every n) = 0
fragile (Split.at n) = elim (nat_eq n 2) [ true ↦ 1 | false ↦ 0 ]

compare_splits-fragile : (compare_splits nat_eq fragile 5 10).bad_splits ≡ 2 ∷ []
unfolding compare_splits
compare_splits-fragile = refl

compare_splits-too_long : (compare_splits nat_eq fragile 5 4).bad_splits ≡ []
unfolding compare_splits
compare_splits-too_long = refl

compare_splits-exact_example :
    (holds (compare_splits nat_eq fragile 5 10).bad_splits 2 ≡ true)
    ↔ ((0 < 2) × (2 < 5) × (nat_eq (fragile (Split.at 2)) (fragile whole) ≡ false))
compare_splits-exact_example = compare_splits-exact nat_eq fragile 5 10 (omega arith) 2
