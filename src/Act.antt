-- ===== src/Act.antt =====
-- Steps that may fail and change a state. What was changed before an error stays changed.
use smirror.Prelude.{
  Option, none, some, Error, Result, ok, err, wrap, Bytes, Bool, true, false, if◌then◌else◌, ◌≡◌,
  refl,
}

abbrev pub Act : Type 0 → Type 0 → Type 0
Act S A = S → Result A × S

module _ {S : Type 0} where
  abbrev pub pure : {A : Type 0} → A → Act S A
  pure a s = (ok a, s)

  abbrev pub fail : {A : Type 0} → Error → Act S A
  fail e s = (err e, s)

  abbrev pub lift : {A : Type 0} → Result A → Act S A
  lift r s = (r, s)

  -- the error of a call that returns nothing else
  abbrev pub lift_error : Option Error → Act S (Unit {0})
  lift_error none = pure tt
  lift_error (some e) = fail e

  abbrev pub get : Act S S
  get s = (ok s, s)

  abbrev pub modify : (S → S) → Act S (Unit {0})
  modify f s = (ok tt, f s)

  abbrev pub continue : {A B : Type 0} → Result A × S → (A → Act S B) → Result B × S
  continue (ok a, s) f = f a s
  continue (err e, s) f = (err e, s)

  infixl 10 ◌>>=◌ ◌>>◌
  abbrev pub ◌>>=◌ : {A B : Type 0} → Act S A → (A → Act S B) → Act S B
  ◌>>=◌ m f s = continue (m s) f

  abbrev pub ◌>>◌ : {B : Type 0} → Act S (Unit {0}) → Act S B → Act S B
  m >> n = m >>= λ _. n

  -- `errors.Wrapf` on the way out
  abbrev pub wrapped : {A : Type 0} → Bytes → Result A × S → Result A × S
  wrapped text (ok a, s) = (ok a, s)
  wrapped text (err e, s) = (err (wrap text e), s)

  abbrev pub wrapping : {A : Type 0} → Bytes → Act S A → Act S A
  wrapping text m s = wrapped text (m s)

-- the error of a step, `nil` if it has none
abbrev pub error_of : {A : Type 0} → Result A → Option Error
error_of (ok a) = none
error_of (err e) = some e

module _ {S : Type 0} where
  -- Where a step succeeds, its result and state have a property.
  abbrev pub OnOk : {A : Type 0} → (A → S → Type 0) → Result A × S → Type 0
  OnOk P (ok a, s) = P a s
  OnOk P (err e, s) = Unit

  pub OnOk-continue :
      {A B : Type 0} (Q : A → S → Type 0) (P : B → S → Type 0) (r : Result A × S) (f : A → Act S B)
      → OnOk Q r
      → ((a : A) (s : S) → Q a s → OnOk P (f a s))
      → OnOk P (continue r f)
  OnOk-continue Q P (ok a, s) f q next = next a s q
  OnOk-continue Q P (err e, s) f q next = tt

  pub OnOk-lift :
      {A : Type 0} (P : A → S → Type 0) (r : Result A) (s : S) → ((a : A) → P a s) → OnOk P (r, s)
  OnOk-lift P (ok a) s h = h a
  OnOk-lift P (err e) s h = tt

  pub OnOk-wrapped :
      {A : Type 0} (P : A → S → Type 0) (text : Bytes) (r : Result A × S)
      → OnOk P r
      → OnOk P (wrapped text r)
  OnOk-wrapped P text (ok a, s) h = h
  OnOk-wrapped P text (err e, s) h = tt

  pub OnOk-lift_error :
      (P : Unit {0} → S → Type 0) (e : Option Error) (s : S) → P tt s → OnOk P (lift_error e s)
  OnOk-lift_error P none s h = h
  OnOk-lift_error P (some e) s h = tt

  pub OnOk-result :
      {A : Type 0} (P : A → S → Type 0) (r : Result A × S) (a : A) (s : S)
      → OnOk P r
      → r ≡ (ok a, s)
      → P a s
  OnOk-result P r a s h e = rw e at h

  pub OnOk-map :
      {A : Type 0} (P Q : A → S → Type 0) (r : Result A × S)
      → ((a : A) (s : S) → P a s → Q a s)
      → OnOk P r
      → OnOk Q r
  OnOk-map P Q (ok a, s) h p = h a s p
  OnOk-map P Q (err e, s) h p = tt

  pub OnOk-if :
      {A : Type 0} (P : A → S → Type 0) (b : Bool) (m n : Act S A) (s : S)
      → (b ≡ true → OnOk P (m s))
      → (b ≡ false → OnOk P (n s))
      → OnOk P ((if b then m else n) s)
  OnOk-if P true m n s h k = h refl
  OnOk-if P false m n s h k = k refl

  pub OnOk-if_result :
      {A : Type 0} (P : A → S → Type 0) (b : Bool) (x y : Result A × S)
      → (b ≡ true → OnOk P x)
      → (b ≡ false → OnOk P y)
      → OnOk P (if b then x else y)
  OnOk-if_result P true x y h k = h refl
  OnOk-if_result P false x y h k = k refl

  -- a step behind a call that changes nothing
  pub OnOk-lift_then :
      {A B : Type 0} (P : B → S → Type 0) (r : Result A) (s : S) (f : A → Act S B)
      → ((a : A) → r ≡ ok a → OnOk P (f a s))
      → OnOk P (continue (r, s) f)
  OnOk-lift_then P (ok a) s f h = h a refl
  OnOk-lift_then P (err e) s f h = tt
