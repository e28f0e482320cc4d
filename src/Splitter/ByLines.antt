-- ===== src/Splitter/ByLines.antt =====
-- `splitByLines`: a chunk for each `max_lines` lines.
pub mod Chunks
pub mod Refinement
use smirror.Prelude.{
  ℕ, zero, suc, ◌+◌, List, [], ◌∷◌, Option, none, some, true, false, ◌==◌, if◌then◌else◌, Error,
  Bytes,
}
use smirror.Writer.{Writer, write}
use smirror.Splitter.Scan.{Token, newline, acquire, close_then}

-- The writes of a round: a line break unless the chunk is new (`counter > 0`), then the line.
abbrev pub write_line : {L : Type 0} → ℕ → Bytes → Writer L → Writer L
write_line zero line w = write line w
write_line (suc counter) line w = write line (write newline w)

-- `maxLines == 0` stands for one line.
abbrev pub lines_limit : ℕ → ℕ
lines_limit zero = 1
lines_limit (suc n) = suc n

module _ {K L S : Type 0} (provider : K → S → Writer L × S)
    (close : Writer L → S → Option Error × S) (key : K) where
  -- What follows the last round.
  unfoldable pub finish : Option (Writer L) → S → Option Error × S
  finish none s = (none, s)
  finish (some w) s = close w s

  unfoldable pub lines_loop : ℕ → ℕ → Option (Writer L) → List Token → S → Option Error × S
  unfolding finish acquire
  lines_loop max counter writer [] s = finish writer s
  lines_loop max counter writer (t ∷ ts) s =
      let (w, s') = acquire provider close key writer s in
      elim t.failure [
        | some e ↦ (some e, s')
        | none ↦
            let w' = write_line counter t.line w in
            elim (suc counter == max) [
              | true ↦ close_then provider close w' s' (lines_loop max 0 none ts)
              | false ↦ lines_loop max (suc counter) (some w') ts s'
            ]
      ]

  unfoldable pub split_by_lines : ℕ → List Token → S → Option Error × S
  unfolding lines_loop
  split_by_lines max tokens s = lines_loop (lines_limit max) 0 none tokens s
