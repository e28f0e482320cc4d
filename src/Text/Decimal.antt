-- ===== src/Text/Decimal.antt =====
-- Decimal digits of a number, as `%v` and `%d` print it.
use smirror.Prelude.{ℕ, zero, suc, ◌+◌, ◌/◌, ◌%◌, [], ◌∷◌, true, false, ltb, ◌≡◌, refl, Bytes}
use smirror.Text.Search.{codes}

-- The fuel `suc n` is more than the number of digits of `n`.
digits : ℕ → ℕ → Bytes → Bytes
digits zero n done = done
digits (suc fuel) n done = elim (ltb n 10) [
  | true ↦ (b'0' + n) ∷ done
  | false ↦ digits fuel (n / 10) ((b'0' + n % 10) ∷ done)
]

unfoldable pub decimal : ℕ → Bytes
unfolding digits
decimal n = digits (suc n) n []

prints : decimal 4070 ≡ codes "4070"
unfolding decimal
prints = refl
