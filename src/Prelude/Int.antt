-- ===== src/Prelude/Int.antt =====
-- Python's `int` where a sign can occur: `negsuc n` is -(n + 1).
use Prim.Native.Nat.{ℕ, suc}
use Prim.Native.String.{String}
use mathlib.Core.Bool.{Bool, false}
use xpact.Prelude.Tests.{nat_eq}
use xpact.Prelude.Text.{◌<>◌, show}

pub data ℤ : Type 0 where
  pos : ℕ → ℤ
  negsuc : ℕ → ℤ

-- `code == n`, for a natural number `n`
abbrev pub is_nat : ℤ → ℕ → Bool
is_nat (pos m) n = nat_eq m n
is_nat (negsuc m) n = false

-- `str(code)`
unfoldable pub show_int : ℤ → String
unfolding show
show_int (pos n) = show n
show_int (negsuc n) = "-" <> show (suc n)
