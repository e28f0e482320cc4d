-- ===== src/Config/Key/Trimming.antt =====
-- What `strings.Trim(value, `'"\n\t `)` takes off: the literal is a raw one, so its `n` and `t` are letters.
use mathlib.Core.List.{reverse-append}
use smirror.Prelude.{
  ℕ, [], ◌∷◌, ◌++◌, true, ◌==◌, any, Bytes, ◌≡◌, ◌∙◌, ◌⊎◌, inl, inr, Bool-cases, refl, some, ok,
  if◌then◌else◌, is_empty, get_elem?,
}
use smirror.Text.Search.{codes}
use smirror.Text.Parts.{split, trim, trim_left}
use smirror.Config.Types.{Partition}
use smirror.Config.Key.{KeyLibrary, text, cutset, clean_value, delimited_key, provided_key, key_of}

trim_left_last :
    (set' : Bytes) (s : Bytes) (c : ℕ)
    → any (λ d. d == c) set' ≡ true
    → ((trim_left set' (s ++ c ∷ []) ≡ trim_left set' s ++ c ∷ [])
        ⊎ ((trim_left set' (s ++ c ∷ []) ≡ []) × (trim_left set' s ≡ [])))
unfolding trim_left
trim_left_last set' [] c h = inr (rw h, refl)
trim_left_last set' (x ∷ s) c h = elim (Bool-cases (any (λ d. d == x) set')) [
  | inl e ↦ rw e (trim_left_last set' s c h)
  | inr e ↦ rw e (inl refl)
]

trim_last :
    (set' s : Bytes) (c : ℕ) → any (λ d. d == c) set' ≡ true → trim (s ++ c ∷ []) set' ≡ trim s set'
unfolding trim
trim_last set' s c h = elim (trim_left_last set' s c h) [
  | inl e ↦ rw e (rw (reverse-append (trim_left set' s) (c ∷ [])) (unfold trim_left in rw h))
  | inr (e, e') ↦ rw (e, e')
]

clean_value_last :
    (value : Bytes) (c : ℕ)
    → any (λ d. d == c) cutset ≡ true
    → clean_value (value ++ c ∷ []) ≡ clean_value value
unfolding clean_value
clean_value_last [] c h = trim_last cutset [] c h ∙ (unfold trim trim_left in refl)
clean_value_last (x ∷ s) c h = trim_last cutset (x ∷ s) c h

ending_in_cutset : (c : ℕ) → (c ≡ b'n') ⊎ (c ≡ b't') ⊎ (c ≡ 92) → any (λ d. d == c) cutset ≡ true
ending_in_cutset c (inl e) = rw e refl
ending_in_cutset c (inr (inl e)) = rw e refl
ending_in_cutset c (inr (inr e)) = rw e refl

provided_key_plain :
    (lib : KeyLibrary) (p : Partition) (line : Bytes)
    → is_empty p.field ≡ true
    → provided_key lib p line ≡ delimited_key p line
unfolding provided_key
provided_key_plain lib p line plain = rw (plain, provided_key) refl

-- A partition by a column of delimited text, so without a `Field`, gives two lines the same key, or the
-- same error, if their columns differ only by a letter n or t, or a backslash, behind the second one's.
pub key_of_collides :
    (lib : KeyLibrary) (p : Partition) (line other value : Bytes) (c : ℕ)
    → is_empty p.field ≡ true
    → get_elem? (split line (if is_empty p.separator then codes "," else p.separator)) p.field_index
      ≡ some value
    → get_elem?
        (split other (if is_empty p.separator then codes "," else p.separator))
        p.field_index
      ≡ some (value ++ c ∷ [])
    → (c ≡ b'n') ⊎ (c ≡ b't') ⊎ (c ≡ 92)
    → key_of lib p other ≡ key_of lib p line
unfolding key_of
key_of_collides lib p line other value c plain found found_other ending =
    let same_key : delimited_key p other ≡ delimited_key p line =
      rw (found_other, delimited_key)
        (rw (found, delimited_key)
          (λ i. ok (text (clean_value_last value c (ending_in_cutset c ending) i)))) in
    rw (provided_key_plain lib p other plain, provided_key_plain lib p line plain, same_key, key_of)
