-- ===== src/SchemaReader/Filling.antt =====
-- How the reader of config/schema fills its buffer.
use smirror.Prelude.{
  ℕ, zero, suc, ◌+◌, ◌≤◌, ◌<◌, List, [], ◌∷◌, ◌++◌, append_assoc, Bool, true, false, ◌&&◌, not,
  Option, none, some, ltb, leb, Bytes, Error, length, length-append, ◌≡◌, ◌⊎◌, inl, inr, refl, sym,
  ◌∙◌, Bool-cases, Option-cases, if◌then◌else◌, arith,
}
use smirror.Splitter.Scan.{proceed}
use smirror.SchemaReader.{
  Rules, Reader, is_positive, int32, convert, max_bad_records, fail_if_too_many_bad_records,
  write_record, write_if, transform_line, fill,
}

module _ {V T : Type 0} (rules : Rules V T) where
  -- the records with one more in front, which an empty one is not
  abbrev with_record : Bytes → List Bytes → List Bytes
  with_record [] rest = rest
  with_record (b ∷ bytes) rest = (b ∷ bytes) ∷ rest

  -- the records of lines that are not dropped
  abbrev pub records : List Bytes → List Bytes
  records [] = []
  records (line ∷ lines) = with_record (convert rules line).0 (records lines)

  abbrev with_error : Option Error → ℕ → ℕ
  with_error none n = n
  with_error (some e) n = suc n

  -- the number of lines that have an error
  abbrev pub bad : List Bytes → ℕ
  bad [] = 0
  bad (line ∷ lines) = with_error (convert rules line).1 (bad lines)

  -- There are fewer errors than the schema's limit, if it has one.
  abbrev pub IsTolerated : ℕ → Type 0
  IsTolerated n = (most : ℕ) → max_bad_records rules ≡ some most → n < most

  -- the text of records behind others, if there are any
  abbrev pub joined : Bool → List Bytes → Bytes
  joined started [] = []
  joined started (record_text ∷ rest) =
      (if started then b'\n' ∷ record_text else record_text) ++ joined true rest

  -- The reader is to deliver `whole`.
  pub record IsReading (whole : Bytes) (lines : List Bytes) (r : Reader) : Type 0 where
    pub rest : r.tokens ≡ lines
    pub size : r.pending ≡ length r.buf
    pub text : r.buf ++ joined (is_positive r.count) (records r.tokens) ≡ whole
    pub count : r.count + length r.tokens < 2147483648
    pub tolerated : IsTolerated (r.bad_records + bad r.tokens)
    pub ended : r.read_eof ≡ true → r.tokens ≡ []
    pub unread : r.write_eof ≡ false

  int32-suc : (n : ℕ) → suc n < 2147483648 → int32 (suc n) ≡ suc n
  int32-suc n h = omega arith

  is_positive-suc : (n : ℕ) → suc n < 2147483648 → is_positive (suc n) ≡ true
  is_positive-suc n h = ground arith

  length-separated :
      (started : Bool) (text : Bytes)
      → length (if started then b'\n' ∷ text else text)
        ≡ (if started then suc (length text) else length text)
  length-separated true text = refl
  length-separated false text = refl

  write_record-IsReading :
      (bytes : Bytes) (whole : Bytes) (r : Reader)
      → r.count + suc (length r.tokens) < 2147483648
      → r.pending ≡ length r.buf
      → r.buf ++ joined (is_positive r.count) (with_record bytes (records r.tokens)) ≡ whole
      → IsTolerated (r.bad_records + bad r.tokens)
      → r.read_eof ≡ false
      → r.write_eof ≡ false
      → IsReading whole r.tokens (write_record rules bytes r)
  unfolding write_record
  write_record-IsReading [] whole r count size text tolerated unfinished unread = record {
    rest = refl;
    size = size;
    text = text;
    count = omega arith;
    tolerated = tolerated;
    ended = λ e. ground (arith, e, unfinished);
    unread = unread;
  }
  write_record-IsReading (b ∷ bytes) whole r count size text tolerated unfinished unread = record {
    rest = refl;
    size = ground (
      arith,
      length-append r.buf (if is_positive r.count then b'\n' ∷ b ∷ bytes else b ∷ bytes),
      length-separated (is_positive r.count) (b ∷ bytes),
    );
    text = rw (int32-suc r.count (omega arith)) (
        rw (is_positive-suc r.count (omega arith)) (
          append_assoc r.buf (if is_positive r.count then b'\n' ∷ b ∷ bytes else b ∷ bytes)
            (joined true (records r.tokens))
          ∙ text));
    count = rw (int32-suc r.count (omega arith)) (omega arith);
    tolerated = tolerated;
    ended = λ e. ground (arith, e, unfinished);
    unread = unread;
  }

  -- There is no error, and the state has a property.
  abbrev pub OnNone : (Reader → Type 0) → Option Error × Reader → Type 0
  OnNone P (none, r) = P r
  OnNone P (some e, r) = zero ≡ 1

  IsTolerated-unlimited : (n m : ℕ) → max_bad_records rules ≡ none → IsTolerated n → IsTolerated m
  IsTolerated-unlimited n m unlimited h most limited =
      let stop : none ≡ some most = sym unlimited ∙ limited in ground (arith, stop)

  write_if-OnNone :
      (bytes : Bytes) (e : Option Error) (whole : Bytes) (r : Reader)
      → r.count + suc (length r.tokens) < 2147483648
      → r.pending ≡ length r.buf
      → r.buf ++ joined (is_positive r.count) (with_record bytes (records r.tokens)) ≡ whole
      → IsTolerated (r.bad_records + with_error e (bad r.tokens))
      → r.read_eof ≡ false
      → r.write_eof ≡ false
      → OnNone
          (IsReading whole r.tokens)
          (write_if rules bytes (fail_if_too_many_bad_records rules e r))
  unfolding write_if fail_if_too_many_bad_records
  write_if-OnNone bytes none whole r count size text tolerated unfinished unread =
      write_record-IsReading bytes whole r count size text tolerated unfinished unread
  write_if-OnNone bytes (some e) whole r count size text tolerated unfinished unread =
      elim (Option-cases (max_bad_records rules)) [
        | inl unlimited ↦
            rw (unlimited, fail_if_too_many_bad_records)
              (write_record-IsReading bytes whole r count size text
                (IsTolerated-unlimited _ _ unlimited tolerated) unfinished unread)
        | inr (most, limited) ↦
            let few : r.bad_records + suc (bad r.tokens) < most = tolerated most limited in
            let passes : leb most (suc r.bad_records) ≡ false = ground arith in
            rw (limited, fail_if_too_many_bad_records)
              (rw passes (
                write_record-IsReading bytes whole (record r { bad_records = suc r.bad_records })
                  count size text (λ n h. omega (arith, tolerated n h)) unfinished unread))
      ]

  transform_line-OnNone :
      (line whole : Bytes) (r : Reader)
      → r.count + suc (length r.tokens) < 2147483648
      → r.pending ≡ length r.buf
      → r.buf ++ joined (is_positive r.count) (records (line ∷ r.tokens)) ≡ whole
      → IsTolerated (r.bad_records + bad (line ∷ r.tokens))
      → r.read_eof ≡ false
      → r.write_eof ≡ false
      → OnNone (IsReading whole r.tokens) (transform_line rules line r)
  unfolding transform_line
  transform_line-OnNone line whole r count size text tolerated unfinished unread =
      write_if-OnNone (convert rules line).0 (convert rules line).1 whole r count size text
        tolerated unfinished unread

  -- The reader has enough for a slice, or has reached the end of the text.
  abbrev pub IsFilled : ℕ → Bytes → Reader → Type 0
  IsFilled expect whole r =
      IsReading whole r.tokens r × ((expect ≤ r.pending) ⊎ (r.read_eof ≡ true))

  proceed-OnNone :
      (P Q : Reader → Type 0) (r : Option Error × Reader) (rest : Reader → Option Error × Reader)
      → OnNone P r
      → ((s : Reader) → P s → OnNone Q (rest s))
      → OnNone Q (proceed r rest)
  unfolding proceed
  proceed-OnNone P Q (none, s) rest h k = k s h
  proceed-OnNone P Q (some e, s) rest h k = ground (arith, h)

  enough :
      (expect pending : ℕ) (read_eof : Bool)
      → ltb pending expect && not read_eof ≡ false
      → (expect ≤ pending) ⊎ (read_eof ≡ true)
  enough expect pending true h = inr refl
  enough expect pending false h = inl (ground arith)

  pub own_tokens :
      (whole : Bytes) (lines : List Bytes) (r : Reader)
      → IsReading whole lines r
      → IsReading whole r.tokens r
  own_tokens whole lines r h = record {
    rest = refl;
    size = h.size;
    text = h.text;
    count = h.count;
    tolerated = h.tolerated;
    ended = h.ended;
    unread = h.unread;
  }

  pub fill-IsFilled :
      (expect : ℕ) (lines : List Bytes) (whole : Bytes) (r : Reader)
      → IsReading whole lines r
      → OnNone (IsFilled expect whole) (fill rules expect lines r)
  unfolding fill
  fill-IsFilled expect [] whole r h = elim (Bool-cases (ltb r.pending expect && not r.read_eof)) [
    | inl short ↦
        rw (short, fill)
          (
            record {
              rest = refl;
              size = h.size;
              text = h.text;
              count = h.count;
              tolerated = h.tolerated;
              ended = λ _. h.rest;
              unread = h.unread;
            },
            inr refl,
          )
    | inr full ↦ rw (full, fill) (own_tokens whole [] r h, enough expect r.pending r.read_eof full)
  ]
  fill-IsFilled expect (line ∷ lines) whole r h =
      elim (Bool-cases (ltb r.pending expect && not r.read_eof)) [
        | inl short ↦
            rw (short, fill)
              (proceed-OnNone (IsReading whole lines) (IsFilled expect whole) _
                (fill rules expect lines)
                (transform_line-OnNone line whole (record r { tokens = lines })
                  (rw h.rest at h.count) h.size (rw h.rest at h.text) (rw h.rest at h.tolerated)
                  (ground (arith, short)) h.unread)
                (λ s k. fill-IsFilled expect lines whole s k))
        | inr full ↦
            rw (full, fill)
              (own_tokens whole (line ∷ lines) r h, enough expect r.pending r.read_eof full)
      ]
