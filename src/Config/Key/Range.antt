-- ===== src/Config/Key/Range.antt =====
-- The range of a key that is a hash modulo a number.
use native.Mathlib.Nat.{pow-suc}
use mathlib.Core.List.{reverse, reverse-cons}
use smirror.Prelude.{
  ℕ, zero, suc, ◌-◌, ◌%◌, ◌^◌, ◌<◌, pos, negsuc, rem, neg_of, [], ◌∷◌, false, ◌==◌, ltb, Bytes, ok,
  is_empty, ◌≡◌, ◌≢◌, refl, arith, All, All-append, inl, inr, Bool-cases,
}
use smirror.Config.Types.{Partition}
use smirror.Config.Key.{
  Key, number, KeyLibrary, word, to_int64, negate, absolute, bytes_to_int, hash_of, key_number,
  provided_key, key_of,
}

abbrev pub IsByte : ℕ → Type 0
IsByte b = b < 256

word-lt : (rounds : ℕ) (bytes : Bytes) → All IsByte bytes → word rounds bytes < 256 ^ rounds
unfolding word
word-lt zero bytes h = omega arith
word-lt (suc r) [] h = rw pow-suc (omega (arith, word-lt r [] h))
word-lt (suc r) (v ∷ vs) (hv, h) = rw pow-suc (omega (arith, word-lt r vs h))

All-reverse : (bytes : Bytes) → All IsByte bytes → All IsByte (reverse bytes)
All-reverse [] h = tt
All-reverse (b ∷ bs) (hb, h) =
    rw reverse-cons (All-append IsByte (reverse bs) (b ∷ []) (All-reverse bs h) (hb, tt))

-- The least int64 is the one pattern whose absolute value is no int64.
absolute-pos : (w : ℕ) → w < 2 ^ 64 → w ≢ 2 ^ 63 → (n : ℕ) × (absolute (to_int64 w) ≡ pos n)
unfolding absolute to_int64 negate
absolute-pos w lt ne = elim (Bool-cases (ltb w (2 ^ 63))) [
  | inl small ↦ (w, rw small)
  | inr large ↦ (suc (2 ^ 64 - 1 - w), rw large (ground arith))
]

bytes_to_int-pos :
    (bytes : Bytes)
    → All IsByte bytes
    → word 8 (reverse bytes) ≢ 2 ^ 63
    → (n : ℕ) × (bytes_to_int bytes ≡ pos n)
unfolding bytes_to_int
bytes_to_int-pos bytes h ne =
    absolute-pos (word 8 (reverse bytes)) (word-lt 8 (reverse bytes) (All-reverse bytes h)) ne

neg_of-negsuc : (n : ℕ) → n ≢ 0 → (r : ℕ) × (neg_of n ≡ negsuc r)
neg_of-negsuc zero h = absurd (h refl)
neg_of-negsuc (suc n) h = (n, refl)

module _ (lib : KeyLibrary) (p : Partition) (line : Bytes) where
  -- The key is the remainder of the hash's number.
  key_of-hash :
      (key : Key) (sum : Bytes → Bytes)
      → is_empty p.hash ≡ false
      → 0 < p.modulus
      → hash_of lib p.hash ≡ ok sum
      → provided_key lib p line ≡ ok key
      → key_of lib p line ≡ ok (number (rem (bytes_to_int (sum (lib.as_string key))) p.modulus))
  unfolding key_of key_number
  key_of-hash key sum hashed positive found provided =
      let nonzero : (p.modulus == 0) ≡ false = ground arith in
      rw (provided, key_of) (rw (hashed, key_of) (rw (hashed, key_number) (rw found (rw nonzero))))

  -- A partition with a known hash and a modulus m > 0 gives a line that has a key a number from 0
  -- to m - 1, unless the last eight bytes of the hash are the pattern 0x8000000000000000.
  pub key_of-lt :
      (key : Key) (sum : Bytes → Bytes)
      → is_empty p.hash ≡ false
      → 0 < p.modulus
      → hash_of lib p.hash ≡ ok sum
      → provided_key lib p line ≡ ok key
      → All IsByte (sum (lib.as_string key))
      → word 8 (reverse (sum (lib.as_string key))) ≢ 2 ^ 63
      → (r : ℕ) × (key_of lib p line ≡ ok (number (pos r))) × (r < p.modulus)
  key_of-lt key sum hashed positive found provided bytes ne =
      let (n, e) = bytes_to_int-pos (sum (lib.as_string key)) bytes ne in
      (n % p.modulus, rw (key_of-hash key sum hashed positive found provided, e), omega arith)

  -- For that pattern the key is a negative number whenever m does not divide 2^63.
  pub key_of_negative :
      (key : Key) (sum : Bytes → Bytes)
      → is_empty p.hash ≡ false
      → 2 ^ 63 % p.modulus ≢ 0
      → 0 < p.modulus
      → hash_of lib p.hash ≡ ok sum
      → provided_key lib p line ≡ ok key
      → word 8 (reverse (sum (lib.as_string key))) ≡ 2 ^ 63
      → (r : ℕ) × (key_of lib p line ≡ ok (number (negsuc r)))
  unfolding bytes_to_int absolute to_int64 negate
  key_of_negative key sum hashed ne positive found provided pattern' =
      let (r, e) = neg_of-negsuc (2 ^ 63 % p.modulus) ne in
      (r, rw (key_of-hash key sum hashed positive found provided, pattern') (rw e))
