-- ===== src/Splitter/BySize/Refinement.antt =====
-- The loop of `splitBySize` against a run over the pieces.
use mathlib.Core.List.{flatten}
use smirror.Prelude.{
  ℕ, suc, List, [], ◌∷◌, ◌++◌, false, Option, none, some, lt→ltb, append_assoc, ◌≡◌, ◌∙◌, refl, ap,
  sym, arith, Bytes, Error, length, All, inl, inr, Bool-cases, map,
}
use smirror.Text.Parts.{join}
use smirror.Writer.{Writer, write}
use smirror.Splitter.Scan.{
  token, content, content_one, acquire, close_then, proceed, proceed_done, emit,
}
use smirror.Splitter.ByLines.{write_line}
use smirror.Splitter.ByLines.Refinement.{write_line-content}
use smirror.Splitter.BySize.{size_loop, split_by_size, finish}
use smirror.Splitter.BySize.Tests.{is_full, size_with}
use smirror.Splitter.BySize.Chunks.{
  pieces, pieces-nil, pieces_first, pieces_last, pieces-full, pieces-room, pieces_open,
  flatten-pieces, size_with-content, Fits, IsFilled, content-filled, pieces-Fits,
}

size_one : (x : Bytes) → size_with 0 0 x ≡ length (content (x ∷ []))
size_one x = rw (content_one x) (omega arith)

is_full_empty : (max : ℕ) (x : Bytes) → is_full max 0 x ≡ false
is_full_empty max x = ground arith

proceed_twice :
    {S : Type 0} (r : Option Error × S) (f g : S → Option Error × S)
    → proceed r (λ s. proceed (f s) g) ≡ proceed (proceed r f) g
unfolding proceed
proceed_twice (none, s) f g = refl
proceed_twice (some e, s) f g = refl

flatten-last : (cs : List (List Bytes)) → flatten (cs ++ ([] ∷ []) ∷ []) ≡ flatten cs ++ [] ∷ []
unfolding flatten
flatten-last [] = refl
flatten-last (c ∷ cs) =
    ap (λ (t : List Bytes). c ++ t) (flatten-last cs) ∙ sym (append_assoc c (flatten cs) ([] ∷ []))

module _ {K L S : Type 0} (provider : K → S → Writer L × S)
    (close : Writer L → S → Option Error × S) (key : K) where
  -- The reference: chunk after chunk, but a last chunk with no content is opened and dropped.
  -- `run_open` starts with the first chunk's writer open.
  unfoldable pub run_open : Writer L → List (List Bytes) → S → Option Error × S
  unfolding finish
  run_open w [] s = (none, s)
  run_open w (c ∷ []) s =
      finish provider close key (length (content c)) (some (write (content c) w)) s
  run_open w (c ∷ d ∷ cs) s =
      close_then provider close (write (content c) w) s
        (λ s'. run_open (provider key s').0 (d ∷ cs) (provider key s').1)

  unfoldable pub run : List (List Bytes) → S → Option Error × S
  run [] s = (none, s)
  run (c ∷ cs) s = run_open (provider key s).0 (c ∷ cs) (provider key s).1

  run_open-cons :
      (w : Writer L) (c : List Bytes) (max : ℕ) (x : Bytes) (xs : List Bytes) (s : S)
      → run_open w (c ∷ pieces max (x ∷ []) xs) s
        ≡ close_then provider close
            (write (content c) w)
            s
            (λ s'. run_open (provider key s').0 (pieces max (x ∷ []) xs) (provider key s').1)
  unfolding run_open
  run_open-cons w c max x xs s = let (g, gs, e) = pieces_open max x [] xs in rw e

  run-open :
      (max : ℕ) (x : Bytes) (xs : List Bytes) (s : S)
      → run (pieces max (x ∷ []) xs) s
        ≡ run_open (provider key s).0 (pieces max (x ∷ []) xs) (provider key s).1
  unfolding run
  run-open max x xs s = let (g, gs, e) = pieces_open max x [] xs in rw e

  -- The round that begins a chunk.
  first :
      (x : Bytes) (xs : List Bytes) (w : Writer L) (s : S) (max : ℕ)
      → size_loop provider close key max 1
          (size_with 0 0 x)
          (some (write_line 0 x w))
          (map token xs)
          s
        ≡ size_loop provider close key max 1
            (length (content (x ∷ [])))
            (some (write (content (x ∷ [])) w))
            (map token xs)
            s
  first x xs w s max = λ i.
      size_loop provider close key max 1 (size_one x i) (some (write (sym (content_one x) i) w))
        (map token xs) s

  -- A chunk that holds the lines `o ∷ os` is open.
  loop_open :
      (max : ℕ) (xs : List Bytes) (n : ℕ) (o : Bytes) (os : List Bytes) (w : Writer L) (size : ℕ)
      (s : S)
      → size ≡ length (content (o ∷ os))
      → size_loop provider close key max
          (suc n)
          size
          (some (write (content (o ∷ os)) w))
          (map token xs)
          s
        ≡ run_open w (pieces max (o ∷ os) xs) s
  unfolding size_loop acquire
  loop_open max [] n o os w size s e = rw (pieces_last, e) (unfold run_open in refl)
  loop_open max (x ∷ xs) n o os w size s e = elim (Bool-cases (is_full max size x)) [
    | inl full ↦
        rw (full, size_loop)
          (rw (pieces-full max o os x xs (ap (λ (t : ℕ). is_full max t x) (sym e) ∙ full)) (
            rw (run_open-cons w (o ∷ os) max x xs s) (λ i.
              close_then provider close (write (content (o ∷ os)) w) s (λ s₂.
                (first x xs (provider key s₂).0 (provider key s₂).1 max
                    ∙ loop_open max xs 0 x [] (provider key s₂).0 (length (content (x ∷ [])))
                        (provider key s₂).1 refl)
                  i))))
    | inr room ↦
        rw (room, size_loop)
          (rw (pieces-room max o os x xs (ap (λ (t : ℕ). is_full max t x) (sym e) ∙ room)) (
            (λ i.
              size_loop provider close key max (suc (suc n))
                ((ap (λ (t : ℕ). size_with (suc n) t x) e ∙ size_with-content n o os x) i)
                (some (write_line-content n o os x w i)) (map token xs) s)
            ∙ loop_open max xs (suc n) o (os ++ x ∷ []) w _ s refl))
  ]

  split_by_size-run :
      (max : ℕ) (lines : List Bytes) (s : S)
      → split_by_size provider close key max (map token lines) s ≡ run (pieces max [] lines) s
  unfolding split_by_size size_loop acquire
  split_by_size-run max [] s = rw pieces-nil (unfold run in refl)
  split_by_size-run max (x ∷ xs) s =
      rw (is_full_empty max x, size_loop)
        (rw (pieces_first, run-open max x xs s)
          (first x xs (provider key s).0 (provider key s).1 max
            ∙ loop_open max xs 0 x [] (provider key s).0 _ (provider key s).1 refl))

  run_open-emit :
      (c : List Bytes) (cs : List (List Bytes)) (max : ℕ) (w : Writer L) (s : S)
      → All (Fits max) (c ∷ cs)
      → run_open w (c ∷ cs) s
        ≡ close_then provider close (write (content c) w) s (emit provider close key cs)
  unfolding run_open emit finish
  run_open-emit c [] max w s ((filled, _), _) =
      rw (lt→ltb 0 (length (content c)) filled, finish) (sym (proceed_done _))
  run_open-emit c (d ∷ cs) max w s (_, fits) = λ i.
      close_then provider close (write (content c) w) s
        (λ s'. run_open-emit d cs max (provider key s').0 (provider key s').1 fits i)

  run-emit :
      (cs : List (List Bytes)) (max : ℕ) (s : S)
      → All (Fits max) cs
      → run cs s ≡ emit provider close key cs s
  unfolding run emit
  run-emit [] max s fits = refl
  run-emit (c ∷ cs) max s fits = run_open-emit c cs max (provider key s).0 (provider key s).1 fits

  pieces-All-Fits :
      (max : ℕ) (lines : List Bytes) → All IsFilled lines → All (Fits max) (pieces max [] lines)
  pieces-All-Fits max [] h = rw pieces-nil tt
  pieces-All-Fits max (x ∷ xs) (hx, h) =
      rw pieces_first (pieces-Fits max x [] xs hx h (content-filled x [] hx, inr refl))

  -- `splitBySize` on a text without empty lines that is read without an error does what the
  -- reference does with the pieces: the same writers are opened, written and closed, and the first
  -- error of a close ends it in the same state. The pieces hold the lines of the text in their
  -- order, each once, and a piece is shorter than `max` bytes or is a single line.
  pub split_by_size-emit :
      (max : ℕ) (lines : List Bytes) (s : S)
      → All IsFilled lines
      → (split_by_size provider close key max (map token lines) s
          ≡ emit provider close key (pieces max [] lines) s)
        × (flatten (pieces max [] lines) ≡ lines)
        × All (Fits max) (pieces max [] lines)
  split_by_size-emit max lines s h =
      let fits : All (Fits max) (pieces max [] lines) = pieces-All-Fits max lines h in
      (split_by_size-run max lines s ∙ run-emit _ max s fits, flatten-pieces max [] lines, fits)

  -- a last chunk that is one empty line is opened, and that is all
  abbrev blank : S → Option Error × S
  blank s = (none, (provider key s).1)

  proceed-close_then :
      (w : Writer L) (s : S) (f : S → Option Error × S)
      → close_then provider close w s (λ s'. proceed (f s') blank)
        ≡ proceed (close_then provider close w s f) blank
  proceed-close_then w s f = proceed_twice (close w s) f blank

  run_open-blank :
      (w : Writer L) (c : List Bytes) (cs : List (List Bytes)) (s : S)
      → run_open w (c ∷ (cs ++ ([] ∷ []) ∷ [])) s
        ≡ close_then provider close (write (content c) w) s (run (cs ++ ([] ∷ []) ∷ []))
  unfolding run_open run
  run_open-blank w c [] s = refl
  run_open-blank w c (d ∷ cs) s = refl

  run-blank :
      (cs : List (List Bytes)) (s : S)
      → run (cs ++ ([] ∷ []) ∷ []) s ≡ proceed (emit provider close key cs s) blank
  unfolding run emit run_open finish join proceed
  run-blank [] s = refl
  run-blank (c ∷ cs) s =
      run_open-blank (provider key s).0 c cs (provider key s).1
      ∙ ap (close_then provider close (write (content c) (provider key s).0) (provider key s).1)
          (λ i s'. run-blank cs s' i)
      ∙ proceed-close_then (write (content c) (provider key s).0) (provider key s).1
          (emit provider close key cs)

  -- Where the division of a text ends with a piece that is one empty line, that line is lost: the other
  -- pieces, which hold all lines but this last one, are opened, written and closed, and then a writer
  -- is opened for it that is never closed.
  pub split_by_size_drops_blank :
      (max : ℕ) (lines : List Bytes) (cs : List (List Bytes)) (s : S)
      → pieces max [] lines ≡ cs ++ ([] ∷ []) ∷ []
      → (split_by_size provider close key max (map token lines) s
          ≡ proceed (emit provider close key cs s) (λ s'. (none, (provider key s').1)))
        × (flatten cs ++ [] ∷ [] ≡ lines)
  split_by_size_drops_blank max lines cs s ends = (
    split_by_size-run max lines s ∙ ap (λ ps. run ps s) ends ∙ run-blank cs s,
    sym (flatten-last cs) ∙ sym (ap flatten ends) ∙ flatten-pieces max [] lines,
  )
