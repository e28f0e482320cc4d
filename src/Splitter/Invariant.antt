-- ===== src/Splitter/Invariant.antt =====
-- What a split keeps of the state that its writers share.
use smirror.Prelude.{
  ℕ, suc, List, [], ◌∷◌, Option, none, some, ltb, ◌==◌, Bytes, Error, Result, ok, err, Bool-cases,
  Option-cases, Result-cases, inl, inr, ◌⊎◌, ◌≡◌, refl,
}
use smirror.Writer.{Writer}
use smirror.Config.Types.{Split, Partition}
use smirror.Splitter.Scan.{Token, acquire, proceed}
use smirror.Splitter.ByLines.{lines_loop, split_by_lines, lines_limit, write_line}
use smirror.Splitter.BySize.{size_loop, split_by_size}
use smirror.Splitter.BySize.Tests.{is_full}
use smirror.Splitter.ByPartition.{
  Progress, returned, reached, needs_flush, flush_open, buffer_for, flush_all, renew, put_line,
  place, fill, split_with_partition,
}
use smirror.Splitter.ByPartition.Table.{Keys, Buffer, find}
use smirror.Splitter.{split_tokens}

proceed_keeps :
    {S : Type 0} {P : S → Type 0} (r : Option Error × S) (rest : S → Option Error × S)
    → P r.1
    → ((s : S) → P s → P (rest s).1)
    → P (proceed r rest).1
unfolding proceed
proceed_keeps (none, s) rest h k = k s h
proceed_keeps (some e, s) rest h k = h

-- `P` holds after a writer was opened or closed, with or without an error, if it held before.
module _ {K L S : Type 0} (provider : K → S → Writer L × S)
    (close : Writer L → S → Option Error × S) (P : S → Type 0)
    (opens : (k : K) (s : S) → P s → P (provider k s).1)
    (closes : (w : Writer L) (s : S) → P s → P (close w s).1) (key : K) where
  acquire-keeps : (w : Option (Writer L)) (s : S) → P s → P (acquire provider close key w s).1
  unfolding acquire
  acquire-keeps none s h = opens key s h
  acquire-keeps (some w) s h = h

  lines_loop-keeps :
      (max counter : ℕ) (w : Option (Writer L)) (tokens : List Token) (s : S)
      → P s
      → P (lines_loop provider close key max counter w tokens s).1
  unfolding lines_loop
  lines_loop-keeps max counter none [] s h = unfold smirror.Splitter.ByLines.finish in h
  lines_loop-keeps max counter (some w) [] s h =
      unfold smirror.Splitter.ByLines.finish in closes w s h
  lines_loop-keeps max counter w (t ∷ ts) s h = elim (Option-cases t.failure) [
    | inr (e, failed) ↦ rw (failed, lines_loop) (acquire-keeps w s h)
    | inl fine ↦ elim (Bool-cases (suc counter == max)) [
      | inl full ↦
          rw (fine, lines_loop)
            (rw full (
              proceed_keeps _ _ (closes _ _ (acquire-keeps w s h))
                (λ s' h'. lines_loop-keeps max 0 none ts s' h')))
      | inr room ↦
          rw (fine, lines_loop)
            (rw room (lines_loop-keeps max (suc counter) (some _) ts _ (acquire-keeps w s h)))
    ]
  ]

  size_loop-keeps :
      (max counter size : ℕ) (w : Option (Writer L)) (tokens : List Token) (s : S)
      → P s
      → P (size_loop provider close key max counter size w tokens s).1
  unfolding size_loop
  size_loop-keeps max counter size none [] s h = unfold smirror.Splitter.BySize.finish in h
  size_loop-keeps max counter size (some w) [] s h = elim (Bool-cases (ltb 0 size)) [
    | inl filled ↦ rw (filled, smirror.Splitter.BySize.finish) (closes w s h)
    | inr empty ↦ rw (empty, smirror.Splitter.BySize.finish) h
  ]
  size_loop-keeps max counter size w (t ∷ ts) s h = elim (Option-cases t.failure) [
    | inr (e, failed) ↦ rw (failed, size_loop) (acquire-keeps w s h)
    | inl fine ↦ elim (Bool-cases (is_full max size t.line)) [
      | inl full ↦
          rw (fine, size_loop)
            (rw full (
              proceed_keeps _ _ (closes _ _ (acquire-keeps w s h))
                (λ s' h'. size_loop-keeps max 1 _ (some _) ts _ (opens key s' h'))))
      | inr room ↦
          rw (fine, size_loop)
            (rw room (size_loop-keeps max (suc counter) _ (some _) ts _ (acquire-keeps w s h)))
    ]
  ]

module _ {K L S : Type 0} ⦃keys : Keys K⦄ (provider : K → S → Writer L × S)
    (close : Writer L → S → Option Error × S) (P : S → Type 0)
    (opens : (k : K) (s : S) → P s → P (provider k s).1)
    (closes : (w : Writer L) (s : S) → P s → P (close w s).1) where
  flush_all-keeps : (bs : List (Buffer K L)) (s : S) → P s → P (flush_all provider close bs s).1
  unfolding flush_all
  flush_all-keeps [] s h = h
  flush_all-keeps (b ∷ bs) s h =
      proceed_keeps (close b.writer s) (flush_all provider close bs) (closes b.writer s h)
        (λ s' h'. flush_all-keeps bs s' h')

  -- the state of a loop, wherever it is
  abbrev at : Progress K L S → S
  at (returned e s) = s
  at (reached table s) = s

  buffer_for-keeps :
      (k : K) (table : List (Buffer K L)) (s : S) → P s → P (buffer_for provider close k table s).1
  unfolding buffer_for
  buffer_for-keeps k table s h = elim (Option-cases (find k table)) [
    | inl new ↦ rw (new, buffer_for) (opens k s h)
    | inr (b, found) ↦ rw (found, buffer_for) h
  ]

  flush_open-keeps : (b : Buffer K L) (s : S) → P s → P (flush_open provider close b s).1
  unfolding flush_open
  flush_open-keeps b s h = elim (Option-cases (close b.writer s).0) [
    | inl fine ↦ rw (fine, flush_open) (opens b.key _ (closes b.writer s h))
    | inr (e, failed) ↦ rw (failed, flush_open) (closes b.writer s h)
  ]

  module _ (split : Split) where
    renew-keeps :
        (line : Bytes) (b : Buffer K L) (s : S) → P s → P (renew provider close split line (b, s)).1
    unfolding renew
    renew-keeps line b s h = elim (Bool-cases (needs_flush split b line)) [
      | inl full ↦ rw (full, renew) (flush_open-keeps b s h)
      | inr room ↦ rw (room, renew) h
    ]

    put_line-at :
        (line : Bytes) (table : List (Buffer K L)) (r : Result (Buffer K L) × S)
        → at (put_line provider close split line table r) ≡ r.1
    unfolding put_line
    put_line-at line table (ok b, s) = refl
    put_line-at line table (err e, s) = refl

    place-keeps :
        (k : K) (line : Bytes) (table : List (Buffer K L)) (s : S)
        → P s
        → P (at (place provider close split k line table s))
    unfolding place
    place-keeps k line table s h =
        rw
          (put_line-at line table
            (renew provider close split line (buffer_for provider close k table s)))
          (renew-keeps line (buffer_for provider close k table s).0
            (buffer_for provider close k table s).1 (buffer_for-keeps k table s h))

    progress_cases :
        (p : Progress K L S)
        → ((e : Option Error) × (s : S) × (p ≡ returned e s))
          ⊎ ((table : List (Buffer K L)) × (s : S) × (p ≡ reached table s))
    progress_cases (returned e s) = inl (e, s, refl)
    progress_cases (reached table s) = inr (table, s, refl)

    fill-keeps :
        (key_of : Bytes → Result K) (tokens : List Token) (table : List (Buffer K L)) (s : S)
        → P s
        → P (at (fill provider close split key_of tokens table s))
    unfolding fill
    fill-keeps key_of [] table s h = h
    fill-keeps key_of (t ∷ ts) table s h = elim (Option-cases t.failure) [
      | inr (e, failed) ↦ rw (failed, fill) h
      | inl fine ↦ elim (Result-cases (key_of t.line)) [
        | inl (e, no_key) ↦ rw (fine, fill) (rw (no_key, fill) h)
        | inr (k, has_key) ↦
            let kept : P (at (place provider close split k t.line table s)) =
              place-keeps k t.line table s h in
            elim (progress_cases (place provider close split k t.line table s)) [
              | inl (e, s', ended) ↦
                  rw (fine, fill) (rw (has_key, fill) (rw (ended, fill) (rw ended at kept)))
              | inr (table', s', went) ↦
                  rw (fine, fill)
                    (rw (has_key, fill)
                      (rw (went, fill) (fill-keeps key_of ts table' s' (rw went at kept))))
            ]
      ]
    ]

    split_with_partition-keeps :
        (key_of : Bytes → Result K) (order : List (Buffer K L) → List (Buffer K L))
        (tokens : List Token) (s : S)
        → P s
        → P (split_with_partition provider close split key_of order tokens s).1
    unfolding split_with_partition
    split_with_partition-keeps key_of order tokens s h =
        let kept : P (at (fill provider close split key_of tokens [] s)) =
          fill-keeps key_of tokens [] s h in
        elim (progress_cases (fill provider close split key_of tokens [] s)) [
          | inl (e, s', ended) ↦ rw (ended, split_with_partition) (rw ended at kept)
          | inr (table, s', went) ↦
              rw (went, split_with_partition) (flush_all-keeps (order table) s' (rw went at kept))
        ]

  -- Whatever opening a chunk's writer and closing it keep, with or without an error, a split keeps, on
  -- any text, by lines, by size or by a key, and wherever it ends.
  pub split_tokens-keeps :
      (empty_key : K) (key_of : Partition → Bytes → Result K)
      (order : List (Buffer K L) → List (Buffer K L)) (split : Split) (tokens : List Token) (s : S)
      → P s
      → P (split_tokens provider close empty_key key_of order split tokens s).1
  unfolding split_tokens split_by_lines split_by_size
  split_tokens-keeps empty_key key_of order split tokens s h = elim (Option-cases split.partition) [
    | inr (p, keyed) ↦
        rw (keyed, split_tokens) (split_with_partition-keeps split (key_of p) order tokens s h)
    | inl plain ↦ elim (Bool-cases (ltb 0 split.max_size)) [
      | inl sized ↦
          rw (plain, split_tokens)
            (rw (sized, split_tokens)
              (size_loop-keeps provider close P opens closes empty_key split.max_size 0 0 none
                tokens s h))
      | inr lined ↦
          rw (plain, split_tokens)
            (rw (lined, split_tokens)
              (lines_loop-keeps provider close P opens closes empty_key
                (lines_limit split.max_lines) 0 none tokens s h))
    ]
  ]
