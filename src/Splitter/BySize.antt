-- ===== src/Splitter/BySize.antt =====
-- `splitBySize`: a chunk is closed before the line that would reach `max_size` bytes.
pub mod Tests
pub mod Chunks
pub mod Refinement
use smirror.Prelude.{
  ℕ, zero, suc, ◌+◌, List, [], ◌∷◌, Option, none, some, true, false, ◌&&◌, ltb, leb, Error, Bytes,
  length,
}
use smirror.Writer.{Writer}
use smirror.Splitter.Scan.{Token, acquire, close_then}
use smirror.Splitter.ByLines.{write_line}
use Tests.{is_full, size_with}

module _ {K L S : Type 0} (provider : K → S → Writer L × S)
    (close : Writer L → S → Option Error × S) (key : K) where
  -- What follows the last round: an empty chunk is not closed.
  unfoldable pub finish : ℕ → Option (Writer L) → S → Option Error × S
  finish size none s = (none, s)
  finish size (some w) s = elim (ltb 0 size) [ true ↦ close w s | false ↦ (none, s) ]

  unfoldable pub size_loop : ℕ → ℕ → ℕ → Option (Writer L) → List Token → S → Option Error × S
  unfolding finish acquire
  size_loop max counter size writer [] s = finish size writer s
  size_loop max counter size writer (t ∷ ts) s =
      let (w, s') = acquire provider close key writer s in
      elim t.failure [
        | some e ↦ (some e, s')
        | none ↦ elim (is_full max size t.line) [
          | true ↦ close_then provider close w s' (λ s₂.
              let (w', s₃) = provider key s₂ in
              size_loop max 1 (size_with 0 0 t.line) (some (write_line 0 t.line w')) ts s₃)
          | false ↦
              size_loop max (suc counter) (size_with counter size t.line)
                (some (write_line counter t.line w)) ts s'
        ]
      ]

  unfoldable pub split_by_size : ℕ → List Token → S → Option Error × S
  unfolding size_loop
  split_by_size max tokens s = size_loop max 0 0 none tokens s
