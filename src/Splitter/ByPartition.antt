-- ===== src/Splitter/ByPartition.antt =====
-- `splitWithPartition`: a chunk for each key that is open, closed when its lines or its size are up.
pub mod Table
pub mod NoLimits
pub mod FlushError
use smirror.Prelude.{
  ℕ, ◌+◌, List, [], ◌∷◌, ◌++◌, Option, none, some, Bool, true, false, ◌&&◌, ◌||◌, ltb, Error, Bytes,
  length, Result, ok, err, wrap,
}
use smirror.Text.Search.{codes}
use smirror.Writer.{Writer, write}
use smirror.Config.Types.{Split}
use smirror.Splitter.Scan.{Token, newline, proceed}
use Table.{Keys, Buffer, find, store}

-- Where the loop over the lines ends: at a `return` inside it, or behind it with the open buffers.
pub data Progress (K L S : Type 0) : Type 0 where
  returned : Option Error → S → Progress K L S
  reached : List (Buffer K L) → S → Progress K L S

-- The test in front of `partition.flush(provider)`.
unfoldable pub needs_flush : {K L : Type 0} → Split → Buffer K L → Bytes → Bool
needs_flush split b line =
    (ltb 0 split.max_lines && ltb split.max_lines (b.lines + 1))
    || (ltb 0 split.max_size && ltb split.max_size (b.size + length line))

-- The writes of a round: a line break unless the buffer's size is 0, then the line.
unfoldable pub append_line : {K L : Type 0} → Bytes → Buffer K L → Buffer K L
append_line line b = elim (ltb 0 b.size) [
  | true ↦ record b {
    lines = b.lines + 1;
    size = b.size + 1 + length line;
    writer = write line (write newline b.writer);
  }
  | false ↦ record b {
    lines = b.lines + 1;
    size = b.size + length line;
    writer = write line b.writer;
  }
]

module _ {K L S : Type 0} ⦃keys : Keys K⦄ (provider : K → S → Writer L × S)
    (close : Writer L → S → Option Error × S) where
  -- `flush(provider)`: on an error of `Close` the buffer is not used again.
  unfoldable pub flush_open : Buffer K L → S → Result (Buffer K L) × S
  flush_open b s =
      let (failed, s') = close b.writer s in
      elim failed [
        | some e ↦ (err e, s')
        | none ↦
            let (w, s₂) = provider b.key s' in
            (ok (record b { size = 0; lines = 0; writer = w }), s₂)
      ]

  -- the buffer of a key, opened when there is none
  unfoldable pub buffer_for : K → List (Buffer K L) → S → Buffer K L × S
  unfolding find
  buffer_for key table s = elim (find key table) [
    | some b ↦ (b, s)
    | none ↦
        let (w, s') = provider key s in (record { key = key; lines = 0; size = 0; writer = w }, s')
  ]

  -- `for k := range partitions`: the buffers in some order, each closed for good.
  unfoldable pub flush_all : List (Buffer K L) → S → Option Error × S
  flush_all [] s = (none, s)
  flush_all (b ∷ bs) s = proceed (close b.writer s) (flush_all bs)

  module _ (split : Split) where
    -- A full buffer is closed and opened anew before it takes the line.
    unfoldable pub renew : Bytes → Buffer K L × S → Result (Buffer K L) × S
    renew line (b, s) = elim (needs_flush split b line) [
      | false ↦ (ok b, s)
      | true ↦ flush_open b s
    ]

    -- An error of that `flush` is answered by `return nil`.
    unfoldable pub put_line : Bytes → List (Buffer K L) → Result (Buffer K L) × S → Progress K L S
    put_line line table (err e, s) = returned none s
    put_line line table (ok b, s) = reached (store (append_line line b) table) s

    -- A round for a line and its key.
    unfoldable pub place : K → Bytes → List (Buffer K L) → S → Progress K L S
    place key line table s = put_line line table (renew line (buffer_for key table s))

    -- The loop over the lines.
    unfoldable pub fill : (Bytes → Result K) → List Token → List (Buffer K L) → S → Progress K L S
    fill key_of [] table s = reached table s
    fill key_of (t ∷ ts) table s = elim t.failure [
      | some e ↦ returned (some e) s
      | none ↦ elim (key_of t.line) [
        | err e ↦ returned (some (wrap (codes "failed to get key from " ++ t.line) e)) s
        | ok key ↦ elim (place key t.line table s) [
          | returned e s' ↦ returned e s'
          | reached table' s' ↦ fill key_of ts table' s'
        ]
      ]
    ]

    -- `order` is the order in which Go's runtime yields the entries of the map.
    unfoldable pub split_with_partition :
        (Bytes → Result K)
        → (List (Buffer K L) → List (Buffer K L))
        → List Token
        → S
        → Option Error × S
    split_with_partition key_of order tokens s = elim (fill key_of tokens [] s) [
      | returned e s' ↦ (e, s')
      | reached table s' ↦ flush_all (order table) s'
    ]
