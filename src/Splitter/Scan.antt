-- ===== src/Splitter/Scan.antt =====
-- What the splitting loops share: the scanned lines, the chunk writers, and a reference that writes
-- a list of whole chunks.
use smirror.Prelude.{
  List, [], ◌∷◌, ◌++◌, Option, none, some, ◌≡◌, ◌∙◌, refl, sym, ap, append_assoc, Bytes, Error,
}
use smirror.Text.Parts.{join}
use smirror.Writer.{Writer, write}

-- A round of `scanner.Scan()`: the line, and what `scanner.Err()` is after it.
pub record Token : Type 0 where
  pub line : Bytes
  pub failure : Option Error

-- The scan of a text that is read without an error.
abbrev pub token : Bytes → Token
token line = record { line = line; failure = none }

abbrev pub newline : Bytes
newline = b'\n' ∷ []

-- The lines of a chunk, as they stand in its buffer.
abbrev pub content : List Bytes → Bytes
content lines = join lines newline

pub content_one : (x : Bytes) → content (x ∷ []) ≡ x
unfolding join
content_one x = refl

-- One more line of a chunk is one more line break and the line.
pub content-append :
    (l : Bytes) (ls : List Bytes) (x : Bytes)
    → content ((l ∷ ls) ++ x ∷ []) ≡ content (l ∷ ls) ++ (newline ++ x)
unfolding join
content-append l [] x = refl
content-append l (m ∷ ls) x =
    ap (λ (t : Bytes). l ++ (newline ++ t)) (content-append m ls x)
    ∙ sym (append_assoc l (newline ++ content (m ∷ ls)) (newline ++ x))

-- What is done with the result of a step: the rest, if it succeeded.
unfoldable pub proceed : {S : Type 0} → Option Error × S → (S → Option Error × S) → Option Error × S
proceed (none, s) rest = rest s
proceed (some e, s) rest = (some e, s)

pub proceed_done : {S : Type 0} (r : Option Error × S) → proceed r (λ s. (none, s)) ≡ r
unfolding proceed
proceed_done (none, s) = refl
proceed_done (some e, s) = refl

-- `provider(partition)` opens a writer and may change the state; `close` is `Writer.Close`.
module _ {K L S : Type 0} (provider : K → S → Writer L × S)
    (close : Writer L → S → Option Error × S) where
  -- Closes a writer; the rest is done if that succeeds.
  abbrev pub close_then : Writer L → S → (S → Option Error × S) → Option Error × S
  close_then w s rest = proceed (close w s) rest

  -- `if writer == nil { writer = provider(key) }`
  unfoldable pub acquire : K → Option (Writer L) → S → Writer L × S
  acquire key none s = provider key s
  acquire key (some w) s = (w, s)

  -- The reference: each chunk is opened, written whole and closed, and the first error ends it.
  unfoldable pub emit : K → List (List Bytes) → S → Option Error × S
  emit key [] s = (none, s)
  emit key (c ∷ cs) s =
      let (w, s') = provider key s in close_then (write (content c) w) s' (emit key cs)

  -- The same where the first chunk's writer is open, and empty.
  unfoldable pub emit_open : K → Writer L → List (List Bytes) → S → Option Error × S
  emit_open key w [] s = (none, s)
  emit_open key w (c ∷ cs) s = close_then (write (content c) w) s (emit key cs)
