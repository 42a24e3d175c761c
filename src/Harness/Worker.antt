-- ===== src/Harness/Worker.antt =====
-- The job `explain_split` of reports/issue-0154/tools/harness/worker.py: where the events of two
-- parses differ first; and the job `compare_splits`: at which positions a split of the input changes
-- the result.
pub mod First
pub mod Splits
mod Tests
use xpact.Prelude.{
  ℕ, zero, suc, String, Bool, true, false, List, [], ◌∷◌, length, ltb, leb, not, ◌-◌, if◌then◌else◌,
}
use xpact.Harness.Chunks.{Split, whole, byte}

abbrev pub min : ℕ → ℕ → ℕ
min m n = if ltb n m then n else m

module _ {Event : Type 0} (same : Event → Event → Bool) where
  -- `next(k for k, (x, y) in enumerate(zip(a, b)) if x != y)`, from the number `k` on.
  unfoldable pub first_different : ℕ → List Event → List Event → ℕ → ℕ
  first_different k [] b default = default
  first_different k (x ∷ a) [] default = default
  first_different k (x ∷ a) (y ∷ b) default =
      let later = first_different (suc k) a b default in if same x y then later else k

  unfoldable pub at : List Event → List Event → ℕ
  unfolding first_different
  at a b = first_different 0 a b (min (length a) (length b))

-- The job `compare_splits`: what a parse of the input, split or not, comes to.
pub record Splitting : Type 0 where
  pub byte_same : Bool
  pub bad_splits : List ℕ

-- `[k for k in range(first, first + rest) if bad(k)]`
abbrev pub positions : (ℕ → Bool) → (first rest : ℕ) → List ℕ
positions bad first zero = []
positions bad first (suc rest) =
    let later = positions bad (suc first) rest in if bad first then first ∷ later else later

module _ {Key : Type 0} (same : Key → Key → Bool) where
  unfoldable pub compare_splits : (parse : Split → Key) → (size limit : ℕ) → Splitting
  compare_splits parse size limit = record {
    byte_same = same (parse byte) (parse whole);
    bad_splits =
        if leb size limit
        then positions (λ k. not (same (parse (Split.at k)) (parse whole))) 1 (size - 1)
        else [];
  }
