-- ===== src/Splitter/ByLines/Chunks.antt =====
-- The division into groups of `k` lines, apart from any writer.
use mathlib.Core.List.{flatten}
use smirror.Prelude.{
  ℕ, suc, ◌≤◌, ◌<◌, List, [], ◌∷◌, ◌++◌, true, false, ◌==◌, ◌≡◌, refl, ◌∙◌, arith, Bytes, length,
  length-append, append_assoc, inl, inr, Bool-cases,
}

-- `open` is the group that is being filled.
unfoldable pub groups : ℕ → List Bytes → List Bytes → List (List Bytes)
groups k [] [] = []
groups k (o ∷ open') [] = (o ∷ open') ∷ []
groups k open' (x ∷ xs) = elim (suc (length open') == k) [
  | true ↦ (open' ++ x ∷ []) ∷ groups k [] xs
  | false ↦ groups k (open' ++ x ∷ []) xs
]

pub groups-nil : (k : ℕ) → groups k [] [] ≡ []
unfolding groups
groups-nil k = refl

pub groups_last : (k : ℕ) (o : Bytes) (os : List Bytes) → groups k (o ∷ os) [] ≡ (o ∷ os) ∷ []
unfolding groups
groups_last k o os = refl

module _ (k : ℕ) (open' : List Bytes) (x : Bytes) (xs : List Bytes) where
  pub groups-full :
      (suc (length open') == k) ≡ true
      → groups k open' (x ∷ xs) ≡ (open' ++ x ∷ []) ∷ groups k [] xs
  unfolding groups
  groups-full full = rw (full, groups)

  pub groups-room :
      (suc (length open') == k) ≡ false → groups k open' (x ∷ xs) ≡ groups k (open' ++ x ∷ []) xs
  unfolding groups
  groups-room room = rw (room, groups)

pub groups_open :
    (k : ℕ) (o : Bytes) (os xs : List Bytes)
    → (g : List Bytes) × (gs : List (List Bytes)) × (groups k (o ∷ os) xs ≡ g ∷ gs)
groups_open k o os [] = (o ∷ os, [], groups_last k o os)
groups_open k o os (x ∷ xs) = elim (Bool-cases (suc (suc (length os)) == k)) [
  | inl full ↦ (_, _, groups-full k (o ∷ os) x xs full)
  | inr room ↦
      let (g, gs, e) = groups_open k o (os ++ x ∷ []) xs in
      (g, gs, groups-room k (o ∷ os) x xs room ∙ e)
]

-- No line is lost, doubled or moved.
pub flatten-groups : (k : ℕ) (open' xs : List Bytes) → flatten (groups k open' xs) ≡ open' ++ xs
unfolding flatten
flatten-groups k [] [] = unfold groups in refl
flatten-groups k (o ∷ open') [] = unfold groups in refl
flatten-groups k open' (x ∷ xs) = elim (Bool-cases (suc (length open') == k)) [
  | inl full ↦
      rw (groups-full k open' x xs full)
        (rw (flatten-groups k [] xs) (append_assoc open' (x ∷ []) xs))
  | inr room ↦
      rw (groups-room k open' x xs room)
        (flatten-groups k (open' ++ x ∷ []) xs ∙ append_assoc open' (x ∷ []) xs)
]

-- Every group has `k` lines, but for the last one, which has from 1 to `k`.
abbrev pub Full : ℕ → List (List Bytes) → Type 0
Full k [] = Unit
Full k (g ∷ []) = (0 < length g) × (length g ≤ k)
Full k (g ∷ h ∷ gs) = (length g ≡ k) × Full k (h ∷ gs)

Full-cons :
    (k : ℕ) (g : List Bytes) (gs : List (List Bytes))
    → (0 < length g) × (length g ≡ k)
    → Full k gs
    → Full k (g ∷ gs)
Full-cons k g [] (p, e) f = omega arith
Full-cons k g (h ∷ gs) (p, e) f = (e, f)

pub groups-Full : (k : ℕ) (open' xs : List Bytes) → length open' < k → Full k (groups k open' xs)
groups-Full k [] [] h = unfold groups in tt
groups-Full k (o ∷ open') [] h = unfold groups in omega arith
groups-Full k open' (x ∷ xs) h = elim (Bool-cases (suc (length open') == k)) [
  | inl full ↦ rw (groups-full k open' x xs full) (
      Full-cons k (open' ++ x ∷ []) _
        (ground (arith, length-append open' (x ∷ [])), ground (arith, length-append open' (x ∷ [])))
        (groups-Full k [] xs (omega arith)))
  | inr room ↦
      rw (groups-room k open' x xs room)
        (groups-Full k (open' ++ x ∷ []) xs (ground (arith, length-append open' (x ∷ []))))
]
