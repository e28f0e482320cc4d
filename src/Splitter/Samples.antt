-- ===== src/Splitter/Samples.antt =====
-- Splits of small texts.
use mathlib.Core.List.{flatten}
use smirror.Prelude.{
  List, [], ◌∷◌, ◌++◌, map, Option, none, some, Bytes, Error, errorf, ok, All, ◌≡◌, refl, arith,
}
use smirror.Text.Search.{codes, same}
use smirror.Text.Parts.{join}
use smirror.Writer.{Writer, new_writer, write}
use smirror.Config.Types.{Split}
use smirror.Config.Key.{Key, text}
use smirror.Config.Key.Equality.{key_keys}
use smirror.Splitter.Scan.{token, emit, proceed}
use smirror.Splitter.ByLines.{split_by_lines, lines_limit}
use smirror.Splitter.ByLines.Chunks.{groups, Full}
use smirror.Splitter.ByLines.Refinement.{split_by_lines-emit}
use smirror.Splitter.BySize.{split_by_size}
use smirror.Splitter.BySize.Chunks.{pieces, Fits}
use smirror.Splitter.BySize.Tests.{is_full, size_with}
use smirror.Splitter.BySize.Refinement.{split_by_size-emit, split_by_size_drops_blank}
use smirror.Splitter.ByPartition.{split_with_partition, fill, returned, flush_all, needs_flush}
use smirror.Splitter.ByPartition.Table.{IsMap, Buffer, find}
use smirror.Splitter.ByPartition.NoLimits.{split_with_partition-groups, lines_of, Holds}
use smirror.Splitter.ByPartition.FlushError.{fill-loses_error}

abbrev new_chunk : Key → List Bytes → Writer Key × List Bytes
new_chunk key s = (new_writer none key, s)

-- the chunks in the order in which they were closed
abbrev keep : Writer Key → List Bytes → Option Error × List Bytes
keep w s = (none, s ++ w.written ∷ [])

abbrev no_space : Error
no_space = errorf (codes "no space")

abbrev refuse : Writer Key → List Bytes → Option Error × List Bytes
refuse w s = (some no_space, s)

abbrev three_lines : List Bytes
three_lines = codes "ab" ∷ codes "c" ∷ codes "ad" ∷ []

abbrev by_first : Bytes → Key
by_first [] = text []
by_first (c ∷ _) = text (c ∷ [])

abbrev no_limits : Split
no_limits = record { max_lines = 0; template = []; partition = none; max_size = 0 }

abbrev one_line : Split
one_line = record { max_lines = 1; template = []; partition = none; max_size = 0 }

abbrev full_buffer : Buffer Key Key
full_buffer = record {
  key = text (codes "a");
  lines = 1;
  size = 2;
  writer = record (new_writer none (text (codes "a"))) { written = codes "ab" };
}

-- Two lines to a chunk.
two_chunks :
    split_by_lines new_chunk keep (text []) 2 (map token three_lines) []
    ≡ (none, (codes "ab" ++ (b'\n' ∷ codes "c")) ∷ codes "ad" ∷ [])
unfolding split_by_lines proceed write new_writer
two_chunks = refl

split_by_lines-emit_example :
    (split_by_lines new_chunk keep (text []) 2 (map token three_lines) []
      ≡ emit new_chunk keep (text []) (groups (lines_limit 2) [] three_lines) [])
    × (flatten (groups (lines_limit 2) [] three_lines) ≡ three_lines)
    × Full (lines_limit 2) (groups (lines_limit 2) [] three_lines)
split_by_lines-emit_example = split_by_lines-emit new_chunk keep (text []) 2 three_lines []

split_by_size-emit_example :
    (split_by_size new_chunk keep (text []) 5 (map token three_lines) []
      ≡ emit new_chunk keep (text []) (pieces 5 [] three_lines) [])
    × (flatten (pieces 5 [] three_lines) ≡ three_lines)
    × All (Fits 5) (pieces 5 [] three_lines)
split_by_size-emit_example =
    split_by_size-emit new_chunk keep (text []) 5 three_lines []
      (omega arith, (omega arith, (omega arith, tt)))

split_by_size_drops_blank_example :
    (split_by_size new_chunk keep (text []) 3 (map token (codes "ab" ∷ codes "cd" ∷ [] ∷ [])) []
      ≡ proceed
          (emit new_chunk keep (text []) ((codes "ab" ∷ []) ∷ (codes "cd" ∷ []) ∷ []) [])
          (λ s'. (none, (new_chunk (text []) s').1)))
    × (flatten ((codes "ab" ∷ []) ∷ (codes "cd" ∷ []) ∷ []) ++ [] ∷ []
        ≡ codes "ab" ∷ codes "cd" ∷ [] ∷ [])
unfolding pieces is_full size_with join
split_by_size_drops_blank_example =
    split_by_size_drops_blank new_chunk keep (text []) 3 (codes "ab" ∷ codes "cd" ∷ [] ∷ [])
      ((codes "ab" ∷ []) ∷ (codes "cd" ∷ []) ∷ []) [] refl

split_with_partition-groups_example :
    (table : List (Buffer Key Key)) × (s' : List Bytes) × (split_with_partition new_chunk keep
        no_limits
        (λ l. ok (by_first l))
        (λ b. b)
        (map token three_lines)
        []
      ≡ flush_all new_chunk keep table s')
    × ((k : Key) → Holds (lines_of by_first k three_lines) (find k table))
    × IsMap table
unfolding new_writer
split_with_partition-groups_example =
    split_with_partition-groups new_chunk keep (λ k s. refl) no_limits (λ l. ok (by_first l))
      by_first refl refl (λ line. refl) (λ b. b) three_lines []
      (omega arith, (omega arith, (omega arith, tt)))

fill-loses_error_example :
    fill new_chunk refuse one_line
      (λ l. ok (by_first l))
      (token (codes "ac") ∷ token (codes "b") ∷ [])
      (full_buffer ∷ [])
      []
    ≡ returned none []
unfolding same find needs_flush
fill-loses_error_example =
    fill-loses_error new_chunk refuse one_line (λ l. ok (by_first l)) (codes "ac")
      (token (codes "b") ∷ []) (full_buffer ∷ []) [] (text (codes "a")) full_buffer no_space refl
      refl refl refl
