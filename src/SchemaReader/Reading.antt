-- ===== src/SchemaReader/Reading.antt =====
-- What the reader of config/schema delivers.
use smirror.Prelude.{
  ℕ, zero, suc, ◌-◌, ◌≤◌, ◌<◌, List, [], ◌∷◌, ◌++◌, append-nil, append_assoc, Bool, true, false,
  ◌&&◌, not, Option, none, some, ◌==◌, Bytes, Error, is_empty, length, length-append, take, drop,
  take-drop, ◌≡◌, ◌⊎◌, inl, inr, refl, sym, ap, ◌∙◌, Bool-cases, if◌then◌else◌, arith,
}
use smirror.Splitter.Scan.{content}
use smirror.Text.Parts.{join}
use smirror.SchemaReader.{
  Rules, Reader, ReadError, eof, failure, new_reader, is_positive, fill, read_buffer, read,
  read_all, gather,
}
use smirror.SchemaReader.Filling.{
  records, bad, IsTolerated, joined, IsReading, IsFilled, OnNone, fill-IsFilled,
}

module _ {V T : Type 0} (rules : Rules V T) where
  -- What a round of reading gives of the text: a part of it that is not empty, or its end.
  abbrev Gives : Bytes → (Bytes × Option ReadError) × Reader → Type 0
  Gives whole ((bytes, none), r) =
      (1 ≤ length bytes)
      × ((rest : Bytes) × (whole ≡ bytes ++ rest) × IsReading rules rest r.tokens r)
  Gives whole ((bytes, some eof), r) = (bytes ≡ []) × (whole ≡ [])
  Gives whole ((bytes, some (failure e)), r) = zero ≡ 1

  -- the end of the text
  no_more :
      (whole : Bytes) (r : Reader)
      → IsReading rules whole r.tokens r
      → r.read_eof ≡ true
      → r.buf ≡ []
      → whole ≡ []
  no_more whole r h finished drained =
      sym h.text
      ∙ (ap (λ (b : Bytes). b ++ joined rules (is_positive r.count) (records rules r.tokens))
            drained
          ∙ ap (λ (l : List Bytes). joined rules (is_positive r.count) (records rules l))
              (h.ended finished))

  take-nil : (n : ℕ) (bytes : Bytes) → 0 < n → is_empty (take n bytes) ≡ true → bytes ≡ []
  take-nil zero bytes pos h = ground (arith, pos)
  take-nil (suc n) [] pos h = refl
  take-nil (suc n) (b ∷ bytes) pos h = ground (arith, h)

  at_end :
      (expect : ℕ) (buf : Bytes) (pending : ℕ) (read_eof : Bool)
      → 0 < expect
      → buf ≡ []
      → pending ≡ length buf
      → (expect ≤ pending) ⊎ (read_eof ≡ true)
      → read_eof ≡ true
  at_end expect buf pending read_eof pos nothing size (inr finished) = finished
  at_end expect buf pending read_eof pos nothing size (inl full) =
      let none_pending : pending ≡ 0 = size ∙ ap length nothing in ground (arith, none_pending)

  not_empty : (bytes : Bytes) → is_empty bytes ≡ false → 1 ≤ length bytes
  not_empty [] h = ground (arith, h)
  not_empty (b ∷ bytes) h = omega arith

  left :
      (expect : ℕ) (buf : Bytes) (pending : ℕ)
      → pending ≡ length buf
      → pending - length (take expect buf) ≡ length (drop expect buf)
  left expect buf pending size =
      omega
        (arith, ap length (take-drop expect buf), length-append (take expect buf) (drop expect buf))

  read_buffer-Gives :
      (expect : ℕ) (whole : Bytes) (r : Option Error × Reader)
      → 0 < expect
      → OnNone rules (IsFilled rules expect whole) r
      → Gives whole (read_buffer rules expect r)
  unfolding read_buffer
  read_buffer-Gives expect whole (some e, r) pos h = h
  read_buffer-Gives expect whole (none, r) pos (h, filled) =
      elim (Bool-cases (is_empty (take expect r.buf))) [
        | inl drained ↦
            let nothing : r.buf ≡ [] = take-nil expect r.buf pos drained in
            let finished : r.read_eof ≡ true =
              at_end expect r.buf r.pending r.read_eof pos nothing h.size filled in
            let ends : (is_empty r.buf && not (expect == 0)) ≡ true =
              ground (arith, nothing, pos) in
            rw (drained, read_buffer)
              (rw (finished, read_buffer)
                (rw (ends, read_buffer) (refl, no_more whole r h finished nothing)))
        | inr part ↦
            rw (part, read_buffer)
              (
                not_empty (take expect r.buf) part,
                (
                  drop expect r.buf ++ joined rules (is_positive r.count) (records rules r.tokens),
                  sym h.text
                      ∙ (ap
                            (λ (b : Bytes).
                              b ++ joined rules (is_positive r.count) (records rules r.tokens))
                            (sym (take-drop expect r.buf))
                          ∙ append_assoc (take expect r.buf) (drop expect r.buf)
                              (joined rules (is_positive r.count) (records rules r.tokens))),
                  record {
                    rest = refl;
                    size = left expect r.buf r.pending h.size;
                    text = refl;
                    count = h.count;
                    tolerated = h.tolerated;
                    ended = h.ended;
                    unread = h.unread;
                  },
                ),
              )
      ]

  Gives-else :
      (whole : Bytes) (b : Bool) (x y : (Bytes × Option ReadError) × Reader)
      → b ≡ false
      → Gives whole y
      → Gives whole (if b then x else y)
  Gives-else whole false x y e h = h
  Gives-else whole true x y e h = ground (arith, e)

  read-Gives :
      (expect : ℕ) (whole : Bytes) (r : Reader)
      → 0 < expect
      → IsReading rules whole r.tokens r
      → Gives whole (read rules expect r)
  unfolding read
  read-Gives expect whole r pos h =
      Gives-else whole r.write_eof (([], some eof), r) _ h.unread
        (read_buffer-Gives expect whole (fill rules expect r.tokens r) pos
          (fill-IsFilled rules expect r.tokens whole r h))

  gather-whole :
      (whole : Bytes) (rounds : ℕ) (result : (Bytes × Option ReadError) × Reader)
      (next : Reader → Bytes × Option ReadError)
      → Gives whole result
      → ((rest : Bytes) (r : Reader)
          → suc (length rest) ≤ length whole
          → IsReading rules rest r.tokens r
          → next r ≡ (rest, some eof))
      → gather rules result next ≡ (whole, some eof)
  gather-whole whole rounds ((bytes, none), r) next (some_bytes, (rest, split, h)) k =
      let shorter : suc (length rest) ≤ length whole =
        omega (arith, some_bytes, ap length split, length-append bytes rest) in
      ap (λ (n : Bytes × Option ReadError). (bytes ++ n.0, n.1)) (k rest r shorter h) ∙ λ i.
      (sym split i, some eof)
  gather-whole whole rounds ((bytes, some eof), r) next (none_read, ended) k =
      λ i. ((none_read ∙ sym ended) i, some eof)
  gather-whole whole rounds ((bytes, some (failure e)), r) next h k = ground (arith, h)

  read_all-whole :
      (rounds expect : ℕ) (whole : Bytes) (r : Reader)
      → 0 < expect
      → length whole < rounds
      → IsReading rules whole r.tokens r
      → read_all rules rounds expect r ≡ (whole, some eof)
  unfolding read_all
  read_all-whole zero expect whole r pos le h = ground arith
  read_all-whole (suc rounds) expect whole r pos le h =
      gather-whole whole rounds (read rules expect r) (read_all rules rounds expect)
        (read-Gives expect whole r pos h)
        (λ rest r' shorter h'. read_all-whole rounds expect rest r' pos (omega arith) h')

  joined-content : (p : Bytes) (ps : List Bytes) → joined rules false (p ∷ ps) ≡ content (p ∷ ps)
  unfolding join
  joined-content p [] = append-nil p
  joined-content p (q ∷ ps) = ap (λ (t : Bytes). p ++ (b'\n' ∷ t)) (joined-content q ps)

  joined-records : (ps : List Bytes) → joined rules false ps ≡ content ps
  unfolding join
  joined-records [] = refl
  joined-records (p ∷ ps) = joined-content p ps

  new_reader-IsReading :
      (lines : List Bytes)
      → length lines < 2147483648
      → IsTolerated rules (bad rules lines)
      → IsReading rules (content (records rules lines)) (new_reader lines).tokens (new_reader lines)
  unfolding new_reader
  new_reader-IsReading lines short tolerated = record {
    rest = refl;
    size = refl;
    text = joined-records (records rules lines);
    count = omega arith;
    tolerated = λ most e. omega (arith, tolerated most e);
    ended = λ e. ground (arith, e);
    unread = refl;
  }

  -- Reading everything, in slices of any length above 0, ends with `io.EOF` after at most a round more
  -- than there are bytes, and delivers the records that the lines become, each once and in order, with
  -- a line break between two. The lines are fewer than 2^31, and fewer of them have an error than the
  -- schema allows, if it has a limit.
  pub read_all-new_reader :
      (rounds expect : ℕ) (lines : List Bytes)
      → 0 < expect
      → length lines < 2147483648
      → IsTolerated rules (bad rules lines)
      → length (content (records rules lines)) < rounds
      → read_all rules rounds expect (new_reader lines) ≡ (content (records rules lines), some eof)
  read_all-new_reader rounds expect lines pos short tolerated enough_rounds =
      read_all-whole rounds expect (content (records rules lines)) (new_reader lines) pos
        enough_rounds (new_reader-IsReading lines short tolerated)
