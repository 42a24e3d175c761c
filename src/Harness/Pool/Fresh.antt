-- ===== src/Harness/Pool/Fresh.antt =====
-- A child that crashed or was silent is not asked again.
use xpact.Prelude.{ℕ, suc, ◌≤◌, ◌<◌, Option, none, some, List, [], ◌∷◌}
use xpact.Harness.Pool.{Pool, Result, answer, timeout, crash}

-- The number that the next child of a pool may have at the least, given its last result.
abbrev pub next_child : ℕ → Result → ℕ
next_child child (answer text) = child
next_child child timeout = suc child
next_child child (crash code) = suc child

-- From one entry to the next the child's number does not fall, and it rises where the child gave no
-- answer.
abbrev pub IsFresh : ℕ → List (ℕ × Result) → Type 0
IsFresh least [] = Unit
IsFresh least ((child, result) ∷ entries) =
    (least ≤ child) × IsFresh (next_child child result) entries

-- Whatever child runs next, its number is at least `least`, and fresh numbers are above it.
abbrev IsAbove : ℕ → Option ℕ → ℕ → Type 0
IsAbove least none started = least ≤ started
IsAbove least (some child) started = (least ≤ child) × (child < started)
