-- ===== src/Splitter/ByLines/Refinement.antt =====
-- The loop of `splitByLines` is the reference run over the groups.
use mathlib.Core.List.{flatten}
use smirror.Prelude.{
  ℕ, zero, suc, List, [], ◌∷◌, ◌++◌, Option, none, some, ◌==◌, ◌≡◌, ◌∙◌, refl, ap, sym, arith,
  Bytes, Error, length, length-append, append_assoc, inl, inr, Bool-cases, map,
}
use smirror.Writer.{Writer, write, write-write}
use smirror.Splitter.Scan.{
  token, newline, content, content-append, content_one, acquire, close_then, proceed_done, emit,
  emit_open,
}
use smirror.Splitter.ByLines.{lines_loop, split_by_lines, finish, write_line, lines_limit}
use smirror.Splitter.ByLines.Chunks.{
  groups, groups-nil, groups_last, groups_open, groups-full, groups-room, flatten-groups, Full,
  groups-Full,
}

-- A round writes the next line of a chunk that holds lines.
pub write_line-content :
    {L : Type 0} (n : ℕ) (o : Bytes) (os : List Bytes) (x : Bytes) (w : Writer L)
    → write_line (suc n) x (write (content (o ∷ os)) w) ≡ write (content ((o ∷ os) ++ x ∷ [])) w
write_line-content n o os x w =
    ap (write x) (write-write (content (o ∷ os)) newline w)
    ∙ write-write (content (o ∷ os) ++ newline) x w
    ∙ ap (λ (t : Bytes). write t w)
        (append_assoc (content (o ∷ os)) newline x ∙ sym (content-append o os x))

module _ {K L S : Type 0} (provider : K → S → Writer L × S)
    (close : Writer L → S → Option Error × S) (key : K) where
  -- A list of groups that begins with an open one starts by opening a writer.
  emit_opened :
      (k : ℕ) (o : Bytes) (os xs : List Bytes) (s : S)
      → emit provider close key (groups k (o ∷ os) xs) s
        ≡ emit_open provider close key (provider key s).0 (groups k (o ∷ os) xs) (provider key s).1
  unfolding emit emit_open
  emit_opened k o os xs s = let (g, gs, e) = groups_open k o os xs in rw e

  mutual
    unfolding lines_loop acquire finish emit emit_open

    -- A chunk that holds the lines `o ∷ os` is open.
    loop_open :
        (k : ℕ) (xs : List Bytes) (n : ℕ) (o : Bytes) (os : List Bytes) (w : Writer L) (s : S)
        → n ≡ length os
        → lines_loop provider close key k
            (suc n)
            (some (write (content (o ∷ os)) w))
            (map token xs)
            s
          ≡ emit_open provider close key w (groups k (o ∷ os) xs) s
    loop_open k [] n o os w s e = rw groups_last (sym (proceed_done _))
    loop_open k (x ∷ xs) n o os w s e = elim (Bool-cases (suc (suc n) == k)) [
      | inl full ↦
          rw (full, lines_loop)
            (rw (groups-full k (o ∷ os) x xs (ap (λ (t : ℕ). suc (suc t) == k) (sym e) ∙ full))
              (λ i.
                close_then provider close (write_line-content n o os x w i) s
                  (λ s'. loop_shut k xs s' i)))
      | inr room ↦
          rw (room, lines_loop)
            (rw (groups-room k (o ∷ os) x xs (ap (λ (t : ℕ). suc (suc t) == k) (sym e) ∙ room)) (
              (λ i.
                lines_loop provider close key k (suc (suc n))
                  (some (write_line-content n o os x w i)) (map token xs) s)
              ∙ loop_open k xs (suc n) o (os ++ x ∷ []) w s
                  (omega (arith, e, length-append os (x ∷ [])))))
    ]

    loop_shut :
        (k : ℕ) (xs : List Bytes) (s : S)
        → lines_loop provider close key k 0 none (map token xs) s
          ≡ emit provider close key (groups k [] xs) s
    loop_shut k [] s = rw groups-nil
    loop_shut k (x ∷ xs) s = elim (Bool-cases (1 == k)) [
      | inl full ↦
          rw (full, lines_loop)
            (rw (groups-full k [] x xs full) (λ i.
              close_then provider close (write (sym (content_one x) i) (provider key s).0)
                (provider key s).1 (λ s'. loop_shut k xs s' i)))
      | inr room ↦
          rw (room, lines_loop)
            (rw (groups-room k [] x xs room) (
              (λ i.
                lines_loop provider close key k 1
                  (some (write (sym (content_one x) i) (provider key s).0)) (map token xs)
                  (provider key s).1)
              ∙ loop_open k xs 0 x [] (provider key s).0 (provider key s).1 refl
              ∙ sym (emit_opened k x [] xs s)))
    ]

  limit_lem :
      (max : ℕ) (lines : List Bytes) (s : S)
      → split_by_lines provider close key max (map token lines) s
        ≡ emit provider close key (groups (lines_limit max) [] lines) s
  unfolding split_by_lines
  limit_lem max lines s = loop_shut (lines_limit max) lines s

  -- `splitByLines` on a text that is read without an error does what the reference does with the
  -- groups of `max` lines (of one line, if `max` is 0): the same writers are opened, written and
  -- closed, and the first error of a close ends it in the same state. The groups hold the lines of
  -- the text in their order, each once, and all but the last have exactly `max` lines; the last
  -- has at least one and at most `max`.
  pub split_by_lines-emit :
      (max : ℕ) (lines : List Bytes) (s : S)
      → (split_by_lines provider close key max (map token lines) s
          ≡ emit provider close key (groups (lines_limit max) [] lines) s)
        × (flatten (groups (lines_limit max) [] lines) ≡ lines)
        × Full (lines_limit max) (groups (lines_limit max) [] lines)
  split_by_lines-emit zero lines s =
      (limit_lem zero lines s, flatten-groups 1 [] lines, groups-Full 1 [] lines (omega arith))
  split_by_lines-emit (suc max) lines s = (
    limit_lem (suc max) lines s,
    flatten-groups (suc max) [] lines,
    groups-Full (suc max) [] lines (omega arith),
  )
