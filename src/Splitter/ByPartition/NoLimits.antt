-- ===== src/Splitter/ByPartition/NoLimits.antt =====
-- `splitWithPartition` with neither `MaxLines` nor `MaxSize`: one chunk for each key.
use mathlib.Core.Path.{subst}
use smirror.Prelude.{
  ◌<◌, List, [], ◌∷◌, ◌++◌, map, Option, none, some, false, ◌≡◌, ◌∙◌, refl, sym, ap, arith, inl,
  inr, Bool-cases, Bytes, Error, Result, ok, length, length-append, append_assoc, append-nil,
  select, select-append, All, All-append, All-select, lt→ltb,
}
use smirror.Text.Parts.{join}
use smirror.Writer.{Writer, write}
use smirror.Config.Types.{Split}
use smirror.Splitter.Scan.{token, newline, content, content-append, content_one}
use smirror.Splitter.BySize.Chunks.{IsFilled, content-filled}
use smirror.Splitter.ByPartition.{
  reached, needs_flush, append_line, buffer_for, renew, put_line, place, fill, flush_all,
  split_with_partition,
}
use smirror.Splitter.ByPartition.Table.{
  Keys, Buffer, find, store, find-store, find-key, IsMap, store-IsMap,
}

-- The buffer holds these lines.
pub record Has {K L : Type 0} (ls : List Bytes) (b : Buffer K L) : Type 0 where
  pub text : b.writer.written ≡ content ls
  pub counted : b.size ≡ length (content ls)

-- The buffer of a key that had these lines.
abbrev pub Holds : {K L : Type 0} → List Bytes → Option (Buffer K L) → Type 0
Holds [] o = o ≡ none
Holds {K} {L} (l ∷ ls) o = (b : Buffer K L) × (o ≡ some b) × Has (l ∷ ls) b

content-nil : content [] ≡ []
unfolding join
content-nil = refl

append_line-Has :
    {K L : Type 0} (ls : List Bytes) (x : Bytes) (b : Buffer K L)
    → All IsFilled ls
    → Has ls b
    → Has (ls ++ x ∷ []) (append_line x b)
unfolding append_line write
append_line-Has [] x b f h =
    let empty : b.size ≡ 0 = h.counted ∙ ap length content-nil in
    rw (empty, append_line)
      (record {
        text = rw (h.text, content-nil) (sym (content_one x));
        counted = rw (content_one x) (omega arith);
      })
append_line-Has (l ∷ ls) x b (hl, f) h =
    let filled : 0 < b.size = omega (arith, h.counted, content-filled l ls hl) in
    rw (lt→ltb 0 b.size filled, append_line)
      (record {
        text = rw (h.text, content-append l ls x) (append_assoc (content (l ∷ ls)) newline x);
        counted = rw (content-append l ls x) (
            omega (
              arith,
              h.counted,
              length-append (content (l ∷ ls)) (newline ++ x),
              length-append newline x,
            ));
      })

append_line-key : {K L : Type 0} (x : Bytes) (b : Buffer K L) → (append_line x b).key ≡ b.key
unfolding append_line
append_line-key x b = ground arith

module _ {K : Type 0} ⦃keys : Keys K⦄ (classify : Bytes → K) where
  -- The lines with a key, in order.
  abbrev pub lines_of : K → List Bytes → List Bytes
  lines_of k lines = select (λ x. keys.same (classify x) k) lines

  -- Each key has the buffer that its lines ask for.
  abbrev pub IsGrouped : {L : Type 0} → List Bytes → List (Buffer K L) → Type 0
  IsGrouped lines table = (k : K) → Holds (lines_of k lines) (find k table)

  Holds-some :
      {L : Type 0} (ls : List Bytes) (x : Bytes) (b : Buffer K L)
      → Has (ls ++ x ∷ []) b
      → Holds (ls ++ x ∷ []) (some b)
  Holds-some [] x b h = (b, refl, h)
  Holds-some (l ∷ ls) x b h = (b, refl, h)

  IsGrouped-store :
      {L : Type 0} (done : List Bytes) (x : Bytes) (b : Buffer K L) (table : List (Buffer K L))
      → b.key ≡ classify x
      → Has (lines_of (classify x) done ++ x ∷ []) b
      → IsGrouped done table
      → IsGrouped (done ++ x ∷ []) (store b table)
  IsGrouped-store done x b table key h g k =
      let same_key : keys.same (classify x) k ≡ keys.same b.key k =
        ap (λ (j : K). keys.same j k) (sym key) in
      rw (select-append (λ y. keys.same (classify y) k) done (x ∷ []), find-store k b table)
        (elim (Bool-cases (keys.same b.key k)) [
          | inl e ↦
              rw (same_key, e)
                (Holds-some (lines_of k done) x b (
                  subst (λ (j : K). Has (lines_of j done ++ x ∷ []) b)
                    ((keys.same_iff (classify x) k).0 (same_key ∙ e)) h))
          | inr e ↦ rw (same_key, e, append-nil) (g k)
        ])

module _ {K L S : Type 0} ⦃keys : Keys K⦄ (provider : K → S → Writer L × S)
    (close : Writer L → S → Option Error × S) where
  module _ (fresh : (k : K) (s : S) → (provider k s).0.written ≡ []) where
    buffer_for-Has :
        (k : K) (table : List (Buffer K L)) (s : S) (ls : List Bytes)
        → Holds ls (find k table)
        → Has ls (buffer_for provider close k table s).0
          × ((buffer_for provider close k table s).0.key ≡ k)
    unfolding buffer_for
    buffer_for-Has k table s [] e =
        rw (e, buffer_for)
          (
            record { text = fresh k s ∙ sym content-nil; counted = sym (ap length content-nil) },
            refl,
          )
    buffer_for-Has k table s (l ∷ ls) (b, e, h) = rw (e, buffer_for) (h, find-key k b table e)

    module _ (split : Split) (key_of : Bytes → Result K) (classify : Bytes → K) where
      module _ (no_lines : split.max_lines ≡ 0) (no_size : split.max_size ≡ 0)
          (has_key : (line : Bytes) → key_of line ≡ ok (classify line)) where
        never_full : (b : Buffer K L) (line : Bytes) → needs_flush split b line ≡ false
        unfolding needs_flush
        never_full b line = ground (arith, no_lines, no_size)

        placed :
            (x : Bytes) (table : List (Buffer K L)) (s : S)
            → place provider close split (classify x) x table s
              ≡ reached
                  (store (append_line x (buffer_for provider close (classify x) table s).0) table)
                  (buffer_for provider close (classify x) table s).1
        unfolding place put_line renew
        placed x table s =
            rw (never_full (buffer_for provider close (classify x) table s).0 x, renew)

        fill-IsGrouped :
            (xs done : List Bytes) (table : List (Buffer K L)) (s : S)
            → All IsFilled done
            → All IsFilled xs
            → IsGrouped classify done table
            → IsMap table
            → (table' : List (Buffer K L)) × (s' : S) × (fill provider close split key_of
                  (map token xs)
                  table
                  s
                ≡ reached table' s')
              × IsGrouped classify (done ++ xs) table'
              × IsMap table'
        unfolding fill
        fill-IsGrouped [] done table s fd fx g one = (table, s, refl, rw append-nil g, one)
        fill-IsGrouped (x ∷ xs) done table s fd (fx, fxs) g one =
            let k : K = classify x in
            let b : Buffer K L = (buffer_for provider close k table s).0 in
            let (had, key) = buffer_for-Has k table s (lines_of classify k done) (g k) in
            let stored : IsGrouped classify (done ++ x ∷ []) (store (append_line x b) table) =
              IsGrouped-store classify done x (append_line x b) table (append_line-key x b ∙ key)
                (append_line-Has (lines_of classify k done) x b (All-select IsFilled _ done fd) had)
                g in
            let (table', s', run, grouped, apart) =
              fill-IsGrouped xs (done ++ x ∷ []) (store (append_line x b) table)
                (buffer_for provider close k table s).1
                (All-append IsFilled done (x ∷ []) fd (fx, tt)) fxs stored
                (store-IsMap (append_line x b) table one) in
            (
              table',
              s',
              rw (has_key x, fill) (rw (placed x table s, fill) run),
              subst (λ (ls : List Bytes). IsGrouped classify ls table')
                  (append_assoc done (x ∷ []) xs) grouped,
              apart,
            )

        -- `splitWithPartition` with neither `MaxLines` nor `MaxSize`, where every line has a key and
        -- none is empty, on a text that is read without an error: it closes the buffers that are
        -- open at the end, in the map's order, and no others. No key has two of them; a key of the
        -- text has one, which holds the lines with that key, all of them and in their order; another
        -- key has none.
        pub split_with_partition-groups :
            (order : List (Buffer K L) → List (Buffer K L)) (lines : List Bytes) (s : S)
            → All IsFilled lines
            → (table : List (Buffer K L)) × (s' : S) × (split_with_partition provider close split
                  key_of order
                  (map token lines)
                  s
                ≡ flush_all provider close (order table) s')
              × ((k : K) → Holds (lines_of classify k lines) (find k table))
              × IsMap table
        unfolding split_with_partition
        split_with_partition-groups order lines s filled =
            let (table, s', run, grouped, apart) =
              fill-IsGrouped lines [] [] s tt filled (λ k. unfold find in refl) tt in
            (table, s', rw (run, split_with_partition) refl, grouped, apart)
