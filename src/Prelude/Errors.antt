-- ===== src/Prelude/Errors.antt =====
-- Go's `error` values and results. An error is its message and whether its dynamic type is
-- `*base.SchemaError` (base/error.go); `error(nil)` is `none`.
use mathlib.Core.Path.{◌≡◌, refl}
use mathlib.Core.Logic.{◌⊎◌, inl, inr}
use mathlib.Core.Bool.{Bool, true, false}
use mathlib.Core.List.{List, ◌++◌, ◌∷◌}
use mathlib.Core.Option.{Option, none, some}
use Prim.Native.Nat.{ℕ}
use native.Mathlib.Omega.{arith}

-- A Go string or byte slice.
abbrev pub Bytes : Type 0
Bytes = List ℕ

pub record Error : Type 0 where
  pub message : Bytes
  pub is_schema : Bool

-- `errors.Errorf` and `fmt.Errorf`.
abbrev pub errorf : Bytes → Error
errorf text = record { message = text; is_schema = false }

-- `errors.Wrapf`: the text, a colon and the cause. The result is of another dynamic type.
abbrev pub wrap : Bytes → Error → Error
wrap text e = record { message = text ++ (b':' ∷ b' ' ∷ e.message); is_schema = false }

-- `errors.Wrapf` of an error that may be nil, which stays nil.
abbrev pub wrap_error : Bytes → Option Error → Option Error
wrap_error text none = none
wrap_error text (some e) = some (wrap text e)

-- `base.NewSchemaError`.
abbrev pub new_schema_error : Error → Error
new_schema_error e = record { message = e.message; is_schema = true }

-- `base.IsSchemaError`: `false` of nil.
abbrev pub is_schema_error : Option Error → Bool
is_schema_error none = false
is_schema_error (some e) = e.is_schema

pub data Result {ℓ} (A : Type ℓ) : Type ℓ where
  ok : A → Result A
  err : Error → Result A

infixl 5 ◌>>=◌
abbrev pub ◌>>=◌ {ℓ κ} : {A : Type ℓ} {B : Type κ} → Result A → (A → Result B) → Result B
ok a >>= f = f a
err e >>= f = err e

-- To split on a computed result and keep the equation.
pub Result-cases {ℓ} :
    {A : Type ℓ} (r : Result A) → ((e : Error) × (r ≡ err e)) ⊎ ((a : A) × (r ≡ ok a))
Result-cases (err e) = inl (e, refl)
Result-cases (ok a) = inr (a, refl)

pub ok_injective {ℓ} : {A : Type ℓ} {a b : A} → ok a ≡ ok b → a ≡ b
ok_injective h = ground (arith, h)
