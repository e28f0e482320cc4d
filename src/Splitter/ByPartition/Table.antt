-- ===== src/Splitter/ByPartition/Table.antt =====
-- The map of `splitWithPartition` from a key to its buffer.
use smirror.Prelude.{
  ℕ, List, [], ◌∷◌, Option, none, some, Bool, Bool-cases, inl, inr, true, ◌≡◌, ◌↔◌, refl, ◌∙◌,
  arith, if◌then◌else◌,
}
use smirror.Writer.{Writer}

-- Keys are `interface{}` values that Go compares with `==`.
pub record Keys (K : Type 0) : Type 0 where
  pub same : K → K → Bool
  pub same_iff : (a b : K) → (same a b ≡ true) ↔ (a ≡ b)

pub record Buffer (K L : Type 0) : Type 0 where
  pub key : K
  pub lines : ℕ
  pub size : ℕ
  pub writer : Writer L

module _ {K L : Type 0} ⦃keys : Keys K⦄ where
  unfoldable pub find : K → List (Buffer K L) → Option (Buffer K L)
  find k [] = none
  find k (b ∷ bs) = if keys.same b.key k then some b else find k bs

  unfoldable pub store : Buffer K L → List (Buffer K L) → List (Buffer K L)
  store b [] = b ∷ []
  store b (c ∷ bs) = if keys.same c.key b.key then b ∷ bs else c ∷ store b bs

  pub find-store :
      (k : K) (b : Buffer K L) (bs : List (Buffer K L))
      → find k (store b bs) ≡ (if keys.same b.key k then some b else find k bs)
  unfolding find store
  find-store k b [] = refl
  find-store k b (c ∷ bs) = ground (
    arith,
    keys.same_iff c.key b.key,
    keys.same_iff b.key k,
    keys.same_iff c.key k,
    find-store k b bs,
  )

  -- No key has two buffers.
  abbrev pub IsMap : List (Buffer K L) → Type 0
  IsMap [] = Unit
  IsMap (b ∷ bs) = (find b.key bs ≡ none) × IsMap bs

  pub store-IsMap : (b : Buffer K L) (bs : List (Buffer K L)) → IsMap bs → IsMap (store b bs)
  unfolding store
  store-IsMap b [] h = (unfold find in refl, tt)
  store-IsMap b (c ∷ bs) (other, h) = elim (Bool-cases (keys.same c.key b.key)) [
    | inl e ↦ rw e (rw ((keys.same_iff c.key b.key).0 e) at other, h)
    | inr e ↦ rw e (
      find-store c.key b bs
          ∙ ground (arith, other, e, keys.same_iff c.key b.key, keys.same_iff b.key c.key),
      store-IsMap b bs h,
    )
  ]

  -- A buffer stands under its own key.
  pub find-key : (k : K) (b : Buffer K L) (bs : List (Buffer K L)) → find k bs ≡ some b → b.key ≡ k
  unfolding find
  find-key k b [] h = ground arith
  find-key k b (c ∷ bs) h = ground (arith, keys.same_iff c.key k, find-key k b bs)
