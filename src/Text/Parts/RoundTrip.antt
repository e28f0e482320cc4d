-- ===== src/Text/Parts/RoundTrip.antt =====
-- `strings.Join` after `strings.Split`.
use smirror.Prelude.{
  ℕ, zero, suc, length, ◌-◌, List, [], ◌∷◌, ◌++◌, true, false, Bytes, Bool-cases, inl, inr, ◌≡◌,
  ◌∙◌, refl, sym, append-nil, append_assoc, arith,
}
use smirror.Text.Search.{has_prefix}
use smirror.Text.Parts.{cut, split, join}

module _ (sep part : Bytes) (c : ℕ) (s : Bytes) where
  cut_found :
      has_prefix (c ∷ s) sep ≡ true → cut sep part 0 (c ∷ s) ≡ part ∷ cut sep [] (length sep - 1) s
  unfolding cut
  cut_found h = rw (h, cut)

  cut_other : has_prefix (c ∷ s) sep ≡ false → cut sep part 0 (c ∷ s) ≡ cut sep (part ++ c ∷ []) 0 s
  unfolding cut
  cut_other h = rw (h, cut)

-- A cut has a first part.
cut_first :
    (sep part s : Bytes) (skip : ℕ)
    → (p : Bytes) × (ps : List Bytes) × (cut sep part skip s ≡ p ∷ ps)
unfolding cut
cut_first sep part [] skip = (part, [], refl)
cut_first sep part (c ∷ s) (suc skip) = cut_first sep part s skip
cut_first sep part (c ∷ s) zero = elim (Bool-cases (has_prefix (c ∷ s) sep)) [
  | inl found ↦ (part, cut sep [] (length sep - 1) s, cut_found sep part c s found)
  | inr other ↦
      let (p, ps, e) = cut_first sep (part ++ c ∷ []) s zero in
      (p, ps, cut_other sep part c s other ∙ e)
]

join_cons :
    (part sep : Bytes) (parts : List Bytes)
    → (p : Bytes) × (ps : List Bytes) × (parts ≡ p ∷ ps)
    → join (part ∷ parts) sep ≡ part ++ (sep ++ join parts sep)
unfolding join
join_cons part sep parts (p, ps, e) = rw e refl

has_prefix_one : (c d : ℕ) (s : Bytes) → has_prefix (c ∷ s) (d ∷ []) ≡ true → d ≡ c
unfolding has_prefix
has_prefix_one c d s h = ground (arith, h)

join-cut : (d : ℕ) (part s : Bytes) → join (cut (d ∷ []) part 0 s) (d ∷ []) ≡ part ++ s
join-cut d part [] = unfold join cut in sym (append-nil part)
join-cut d part (c ∷ s) = elim (Bool-cases (has_prefix (c ∷ s) (d ∷ []))) [
  | inl found ↦ rw (cut_found (d ∷ []) part c s found) (
      join_cons part (d ∷ []) (cut (d ∷ []) [] 0 s) (cut_first (d ∷ []) [] s 0)
      ∙ (λ i. part ++ (has_prefix_one c d s found i ∷ join-cut d [] s i)))
  | inr other ↦
      rw (cut_other (d ∷ []) part c s other)
        (join-cut d (part ++ c ∷ []) s ∙ append_assoc part (c ∷ []) s)
]

-- A text that is split at a byte and joined with that byte is the text.
pub join-split : (d : ℕ) (s : Bytes) → join (split s (d ∷ [])) (d ∷ []) ≡ s
unfolding split
join-split d s = join-cut d [] s
