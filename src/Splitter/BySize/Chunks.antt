-- ===== src/Splitter/BySize/Chunks.antt =====
-- The division into pieces of a bounded size, apart from any writer.
use mathlib.Core.List.{flatten}
use smirror.Prelude.{
  ℕ, suc, ◌<◌, List, [], ◌∷◌, ◌++◌, true, false, ◌≡◌, ◌∙◌, ◌⊎◌, refl, ap, arith, Bytes, All, length,
  length-append, append_assoc, inl, inr, Bool-cases,
}
use smirror.Text.Parts.{join}
use smirror.Splitter.Scan.{newline, content, content-append, content_one}
use smirror.Splitter.BySize.Tests.{is_full, size_with}

-- `open'` is the piece that is being filled.
unfoldable pub pieces : ℕ → List Bytes → List Bytes → List (List Bytes)
pieces max [] [] = []
pieces max (o ∷ os) [] = (o ∷ os) ∷ []
pieces max [] (x ∷ xs) = pieces max (x ∷ []) xs
pieces max (o ∷ os) (x ∷ xs) = elim (is_full max (length (content (o ∷ os))) x) [
  | true ↦ (o ∷ os) ∷ pieces max (x ∷ []) xs
  | false ↦ pieces max ((o ∷ os) ++ x ∷ []) xs
]

pub pieces-nil : (max : ℕ) → pieces max [] [] ≡ []
unfolding pieces
pieces-nil max = refl

pub pieces_first :
    (max : ℕ) (x : Bytes) (xs : List Bytes) → pieces max [] (x ∷ xs) ≡ pieces max (x ∷ []) xs
unfolding pieces
pieces_first max x xs = refl

pub pieces_last : (max : ℕ) (o : Bytes) (os : List Bytes) → pieces max (o ∷ os) [] ≡ (o ∷ os) ∷ []
unfolding pieces
pieces_last max o os = refl

module _ (max : ℕ) (o : Bytes) (os : List Bytes) (x : Bytes) (xs : List Bytes) where
  pub pieces-full :
      is_full max (length (content (o ∷ os))) x ≡ true
      → pieces max (o ∷ os) (x ∷ xs) ≡ (o ∷ os) ∷ pieces max (x ∷ []) xs
  unfolding pieces
  pieces-full full = rw (full, pieces)

  pub pieces-room :
      is_full max (length (content (o ∷ os))) x ≡ false
      → pieces max (o ∷ os) (x ∷ xs) ≡ pieces max ((o ∷ os) ++ x ∷ []) xs
  unfolding pieces
  pieces-room room = rw (room, pieces)

pub pieces_open :
    (max : ℕ) (o : Bytes) (os xs : List Bytes)
    → (g : List Bytes) × (gs : List (List Bytes)) × (pieces max (o ∷ os) xs ≡ g ∷ gs)
pieces_open max o os [] = (o ∷ os, [], pieces_last max o os)
pieces_open max o os (x ∷ xs) = elim (Bool-cases (is_full max (length (content (o ∷ os))) x)) [
  | inl full ↦ (_, _, pieces-full max o os x xs full)
  | inr room ↦
      let (g, gs, e) = pieces_open max o (os ++ x ∷ []) xs in
      (g, gs, pieces-room max o os x xs room ∙ e)
]

-- No line is lost, doubled or moved.
pub flatten-pieces : (max : ℕ) (open' xs : List Bytes) → flatten (pieces max open' xs) ≡ open' ++ xs
unfolding flatten
flatten-pieces max [] [] = rw pieces-nil
flatten-pieces max (o ∷ os) [] = rw pieces_last
flatten-pieces max [] (x ∷ xs) = rw pieces_first (flatten-pieces max (x ∷ []) xs)
flatten-pieces max (o ∷ os) (x ∷ xs) =
    elim (Bool-cases (is_full max (length (content (o ∷ os))) x)) [
      | inl full ↦
          rw (pieces-full max o os x xs full)
            (ap (λ (t : List Bytes). (o ∷ os) ++ t) (flatten-pieces max (x ∷ []) xs))
      | inr room ↦
          rw (pieces-room max o os x xs room)
            (flatten-pieces max ((o ∷ os) ++ x ∷ []) xs ∙ append_assoc (o ∷ os) (x ∷ []) xs)
    ]

-- The size that the loop counts is that of the chunk's content.
pub size_with-content :
    (n : ℕ) (o : Bytes) (os : List Bytes) (x : Bytes)
    → size_with (suc n) (length (content (o ∷ os))) x ≡ length (content ((o ∷ os) ++ x ∷ []))
size_with-content n o os x =
    rw (content-append o os x)
      (omega (arith, length-append (content (o ∷ os)) (newline ++ x), length-append newline x))

-- A piece has content; it is shorter than the limit, or it is one line.
abbrev pub Fits : ℕ → List Bytes → Type 0
Fits max piece =
    (0 < length (content piece)) × ((length (content piece) < max) ⊎ (length piece ≡ 1))

abbrev pub IsFilled : Bytes → Type 0
IsFilled line = 0 < length line

-- the first line of a chunk is a part of its content
pub content-filled : (o : Bytes) (os : List Bytes) → IsFilled o → 0 < length (content (o ∷ os))
content-filled o [] h = rw (content_one o) h
content-filled o (p ∷ os) h =
    unfold join in omega (arith, length-append o (newline ++ content (p ∷ os)))

-- a line that does not fill a piece leaves it below the limit
room_lem :
    (max : ℕ) (o : Bytes) (os : List Bytes) (x : Bytes)
    → IsFilled o
    → is_full max (length (content (o ∷ os))) x ≡ false
    → length (content ((o ∷ os) ++ x ∷ [])) < max
room_lem max o os x ho room = ground (arith, content-filled o os ho, size_with-content 0 o os x)

pub pieces-Fits :
    (max : ℕ) (o : Bytes) (os xs : List Bytes)
    → IsFilled o
    → All IsFilled xs
    → Fits max (o ∷ os)
    → All (Fits max) (pieces max (o ∷ os) xs)
pieces-Fits max o os [] ho h f = rw pieces_last (f, tt)
pieces-Fits max o os (x ∷ xs) ho (hx, h) f =
    elim (Bool-cases (is_full max (length (content (o ∷ os))) x)) [
      | inl full ↦
          rw (pieces-full max o os x xs full)
            (f, pieces-Fits max x [] xs hx h (content-filled x [] hx, inr refl))
      | inr room ↦ rw (pieces-room max o os x xs room) (
          pieces-Fits max o (os ++ x ∷ []) xs ho h
            (content-filled o (os ++ x ∷ []) ho, inl (room_lem max o os x ho room)))
    ]
