-- ===== src/Prelude/Int.antt =====
-- Go's `int` where it may be negative.
use Prim.Native.Nat.{ℕ, zero, suc, ◌%◌}
use mathlib.Core.Bool.{Bool, true, false}

-- `negsuc n` is -(n + 1).
pub data ℤ : Type 0 where
  pos : ℕ → ℤ
  negsuc : ℕ → ℤ

abbrev pub is_negative : ℤ → Bool
is_negative (pos n) = false
is_negative (negsuc n) = true

-- the distance from 0
abbrev pub abs : ℤ → ℕ
abs (pos n) = n
abs (negsuc n) = suc n

-- -n
abbrev pub neg_of : ℕ → ℤ
neg_of n = elim n [ zero ↦ pos 0 | suc k ↦ negsuc k ]

-- Go's `a % m`, which has the sign of `a`, for 0 < m.
abbrev pub rem : ℤ → ℕ → ℤ
rem (pos n) m = pos (n % m)
rem (negsuc n) m = neg_of (suc n % m)
