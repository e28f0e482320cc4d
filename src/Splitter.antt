-- ===== src/Splitter.antt =====
-- split.go: a text is divided into chunks by a number of lines, by size or by a key.
pub mod Scan
pub mod ByLines
pub mod BySize
pub mod ByPartition
pub mod Invariant
pub mod Samples
use smirror.Prelude.{ℕ, List, Option, none, some, true, false, ltb, Error, Bytes, Result}
use smirror.Writer.{Writer}
use smirror.Config.Types.{Split, Partition}
use Scan.{Token}
use ByLines.{split_by_lines}
use BySize.{split_by_size}
use ByPartition.{split_with_partition}
use ByPartition.Table.{Keys, Buffer}

module _ {K L S : Type 0} ⦃keys : Keys K⦄ (provider : K → S → Writer L × S)
    (close : Writer L → S → Option Error × S) (empty_key : K)
    (key_of : Partition → Bytes → Result K) (order : List (Buffer K L) → List (Buffer K L)) where
  -- `Split`: a partition goes first, then a size, then the lines.
  unfoldable pub split_tokens : Split → List Token → S → Option Error × S
  split_tokens split tokens s = elim split.partition [
    | some p ↦ split_with_partition provider close split (key_of p) order tokens s
    | none ↦ elim (ltb 0 split.max_size) [
      | true ↦ split_by_size provider close empty_key split.max_size tokens s
      | false ↦ split_by_lines provider close empty_key split.max_lines tokens s
    ]
  ]
