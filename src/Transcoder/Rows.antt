-- ===== src/Transcoder/Rows.antt =====
-- What becomes of the rows of a CSV text whose fields are declared.
use smirror.Prelude.{
  ℕ, zero, suc, ◌<◌, List, [], ◌∷◌, ◌++◌, append_assoc, append-nil, true, false, ◌&&◌, Option, none,
  some, ◌==◌, Bytes, Error, ok, is_empty, length, All, All-append, ◌≡◌, ◌⊎◌, inl, inr, refl, sym,
  ap, ◌∙◌, arith,
}
use smirror.Text.Search.{codes}
use smirror.Text.Parts.{join}
use smirror.Splitter.Scan.{content, content-append, proceed}
use smirror.Config.Types.{Transcoding}
use smirror.Transcoder.{
  Formats, Reader, is_format, put_fields, scan, has_more, read_line, next_line, next, mapped_record,
  next_record, note_bad, write_line, write_json, transform_record_to_json, transform_record, drain,
  new_reader, new_input,
}
use smirror.Transcoder.Columns.{IsDistinct, row, put_fields-row, put_fields-row_again}

-- Rows that are transcoded to JSON: the source is a CSV text with declared fields of different names,
-- and there are no path mappings.
pub record IsTabular (transcoding : Transcoding) : Type 0 where
  pub csv : is_format transcoding.source (codes "CSV") ≡ true
  pub not_xlsx : is_format transcoding.source (codes "XLSX") ≡ false
  pub json : is_format transcoding.dest (codes "JSON") ≡ true
  pub unmapped : transcoding.path_mapping ≡ []
  pub declared : is_empty transcoding.source.fields ≡ false
  pub distinct : IsDistinct transcoding.source.fields

module _ {V D A : Type 0} (formats : Formats V D A) (transcoding : Transcoding) (split_counter : ℕ)
    (tabular : IsTabular transcoding) where
  abbrev pub fields : List Bytes
  fields = transcoding.source.fields

  -- The line has as many values as there are fields, and its row can be written as `t`.
  abbrev pub IsRow : Bytes → Bytes → Type 0
  IsRow line t =
      (values : List Bytes) × (formats.read_csv transcoding.source line ≡ ok values)
      × (length values ≡ length fields)
      × (formats.marshal (row formats.text fields values) ≡ ok t)
      × (is_empty t ≡ false)

  -- The record is empty, or another row.
  abbrev pub IsOld : List (Bytes × V) → Type 0
  IsOld entries =
      (entries ≡ [])
      ⊎ ((old : List Bytes) × (length old ≡ length fields)
          × (entries ≡ row formats.text fields old))

  -- The reader in front of some lines, behind others whose texts are written.
  abbrev pub state : List Bytes → Bytes → List (Bytes × V) → List Bytes → Reader V D A
  state lines line entries done = record {
    tokens = lines;
    line = line;
    sheet = none;
    avro = none;
    fields = fields;
    record_map = entries;
    output = content done;
    count = 0;
    bad_records = 0;
    read_eof = false;
    write_eof = false;
  }

  put_fields-old :
      (values : List Bytes) (entries : List (Bytes × V))
      → length values ≡ length fields
      → IsOld entries
      → put_fields formats.text fields values entries ≡ row formats.text fields values
  put_fields-old values entries e (inl fresh) =
      ap (put_fields formats.text fields values) fresh
      ∙ put_fields-row formats.text fields values tabular.distinct
  put_fields-old values entries e (inr (old, k, same_row)) =
      ap (put_fields formats.text fields values) same_row
      ∙ put_fields-row_again formats.text fields values old e k tabular.distinct

  pub read_line-state :
      (lines : List Bytes) (line : Bytes) (entries : List (Bytes × V)) (done : List Bytes)
      (values : List Bytes)
      → formats.read_csv transcoding.source line ≡ ok values
      → length values ≡ length fields
      → IsOld entries
      → read_line formats transcoding split_counter (state lines line entries done)
        ≡ (none, state lines line (row formats.text fields values) done)
  unfolding read_line
  read_line-state lines line entries done values parsed e old =
      rw (tabular.csv, read_line)
        (rw (parsed, read_line)
          (λ i. (none, state lines line (put_fields-old values entries e old i) done)))

  row-is_empty :
      (fs values : List Bytes)
      → is_empty fs ≡ false
      → length values ≡ length fs
      → is_empty (row formats.text fs values) ≡ false
  row-is_empty [] values h e = ground (arith, h)
  row-is_empty (f ∷ fs) [] h e = ground (arith, e)
  row-is_empty (f ∷ fs) (v ∷ vs) h e = refl

  -- Texts that are not empty.
  abbrev pub IsWritten : List Bytes → Type 0
  IsWritten texts = All (λ t. is_empty t ≡ false) texts

  content-is_empty :
      (t : Bytes) (ts : List Bytes) → is_empty t ≡ false → is_empty (content (t ∷ ts)) ≡ false
  unfolding join
  content-is_empty [] ts h = ground (arith, h)
  content-is_empty (b ∷ t) [] h = refl
  content-is_empty (b ∷ t) (u ∷ ts) h = refl

  write_line-state :
      (lines : List Bytes) (line : Bytes) (entries : List (Bytes × V)) (done : List Bytes)
      (t : Bytes)
      → IsWritten done
      → write_line formats transcoding split_counter t (state lines line entries done)
        ≡ state lines line entries (done ++ t ∷ [])
  unfolding write_line join
  write_line-state lines line entries [] t w = refl
  write_line-state lines line entries (d ∷ ds) t (full, w) =
      rw (content-is_empty d ds full)
        (λ i. record (state lines line entries (d ∷ ds)) { output = sym (content-append d ds t) i })

  mapped_record-unmapped :
      (r : Reader V D A) → mapped_record formats transcoding split_counter (none, r) ≡ (none, r)
  unfolding mapped_record
  mapped_record-unmapped r = rw (tabular.unmapped, mapped_record) refl

  pub write_json-state :
      (lines : List Bytes) (line : Bytes) (values : List Bytes) (done : List Bytes) (t : Bytes)
      → length values ≡ length fields
      → formats.marshal (row formats.text fields values) ≡ ok t
      → IsWritten done
      → write_json formats transcoding split_counter (
          note_bad formats transcoding split_counter (
            mapped_record formats transcoding split_counter
              (none, state lines line (row formats.text fields values) done)))
        ≡ (none, state lines line (row formats.text fields values) (done ++ t ∷ []))
  unfolding write_json note_bad
  write_json-state lines line values done t e marshalled w =
      ap
        (λ (r : Option Error × Reader V D A).
          write_json formats transcoding split_counter
            (note_bad formats transcoding split_counter r))
        (mapped_record-unmapped (state lines line (row formats.text fields values) done))
      ∙ rw (row-is_empty fields values tabular.declared e, write_json)
          (rw (marshalled, write_json)
            (λ i. (none, write_line-state lines line (row formats.text fields values) done t w i)))

  -- the texts of lines
  abbrev pub Rows : List Bytes → List Bytes → Type 0
  Rows [] texts = texts ≡ []
  Rows (line ∷ lines) [] = zero ≡ 1
  Rows (line ∷ lines) (t ∷ texts) = IsRow line t × Rows lines texts

  -- There is no error, and the texts are the reader's output.
  abbrev pub Drained : List Bytes → Option Error × Reader V D A → Type 0
  Drained texts (none, r) = (r.output ≡ content texts) × (r.read_eof ≡ true) × (r.write_eof ≡ false)
  Drained texts (some e, r) = zero ≡ 1

  -- the reader at the end of the lines
  abbrev ended : List (Bytes × V) → List Bytes → Reader V D A
  ended entries done = record (state [] [] entries done) { read_eof = true }

  transform_record-ended :
      (last : Bytes) (entries : List (Bytes × V)) (done : List Bytes)
      → transform_record formats transcoding split_counter (state [] last entries done)
        ≡ (none, ended entries done)
  unfolding transform_record transform_record_to_json has_more scan
  transform_record-ended last entries done = rw (tabular.json, transform_record) refl

  drain-stop :
      (rounds : ℕ) (texts : List Bytes) (entries : List (Bytes × V)) (done : List Bytes)
      → texts ≡ []
      → Drained
          (done ++ texts)
          (drain formats transcoding split_counter rounds (ended entries done))
  unfolding drain
  drain-stop zero texts entries done e = (
    ap content (sym (append-nil done) ∙ ap (λ (ts : List Bytes). done ++ ts) (sym e)),
    refl,
    refl,
  )
  drain-stop (suc rounds) texts entries done e = (
    ap content (sym (append-nil done) ∙ ap (λ (ts : List Bytes). done ++ ts) (sym e)),
    refl,
    refl,
  )

  pub drain-ended :
      (rounds : ℕ) (texts : List Bytes) (last : Bytes) (entries : List (Bytes × V))
      (done : List Bytes)
      → texts ≡ []
      → Drained
          (done ++ texts)
          (drain formats transcoding split_counter (suc rounds) (state [] last entries done))
  unfolding drain proceed
  drain-ended rounds texts last entries done e =
      rw (transform_record-ended last entries done) (drain-stop rounds texts entries done e)

  pub IsWritten-more :
      (done : List Bytes) (t : Bytes)
      → IsWritten done
      → is_empty t ≡ false
      → IsWritten (done ++ t ∷ [])
  IsWritten-more done t w h = All-append (λ u. is_empty u ≡ false) done (t ∷ []) w (h, tt)

  module _ (headless : (transcoding.source.has_header && (split_counter == 0)) ≡ false) where
    transform_record-state :
        (lines : List Bytes) (line last : Bytes) (entries : List (Bytes × V)) (done : List Bytes)
        (t : Bytes) (row_of : IsRow line t)
        → IsOld entries
        → IsWritten done
        → transform_record formats transcoding split_counter
            (state (line ∷ lines) last entries done)
          ≡ (none, state lines line (row formats.text fields row_of.0) (done ++ t ∷ []))
    unfolding transform_record transform_record_to_json has_more scan next_record next next_line
    transform_record-state lines line last entries done t (values, parsed, e, marshalled, full) old
          w =
        rw (tabular.json, transform_record)
          (rw headless (
            ap
              (λ (r : Option Error × Reader V D A). write_json formats transcoding split_counter (
                note_bad formats transcoding split_counter
                  (mapped_record formats transcoding split_counter r)))
              (read_line-state lines line entries done values parsed e old)
            ∙ write_json-state lines line values done t e marshalled w))

    drain-state :
        (rounds : ℕ) (lines texts : List Bytes) (last : Bytes) (entries : List (Bytes × V))
        (done : List Bytes)
        → length lines < rounds
        → Rows lines texts
        → IsOld entries
        → IsWritten done
        → Drained
            (done ++ texts)
            (drain formats transcoding split_counter rounds (state lines last entries done))
    unfolding drain proceed
    drain-state zero lines texts last entries done le rows old w = ground arith
    drain-state (suc rounds) [] texts last entries done le rows old w =
        drain-ended rounds texts last entries done rows
    drain-state (suc rounds) (line ∷ lines) [] last entries done le rows old w =
        ground (arith, rows)
    drain-state (suc rounds) (line ∷ lines) (t ∷ texts) last entries done le (row_of, rows) old w =
        rw (transform_record-state lines line last entries done t row_of old w) (
          rw (append_assoc done (t ∷ []) texts) at (
            drain-state rounds lines texts line (row formats.text fields row_of.0) (done ++ t ∷ [])
              (omega (arith, le)) rows (inr (row_of.0, row_of.2, refl))
              (IsWritten-more done t w row_of.4)))

  pub new_reader-state :
      (lines : List Bytes) (bytes : Bytes)
      → new_reader formats transcoding split_counter lines bytes ≡ ok (state lines [] [] [])
  unfolding new_reader new_input join
  new_reader-state lines bytes =
      rw (tabular.not_xlsx, new_reader) (rw (tabular.json, new_reader) refl)

  -- Where no header is read, a reader over rows can be made, and after more rounds than there are lines
  -- its output is the texts of all the rows, each once and in order, with a line break between two.
  pub drain-new_reader :
      (rounds : ℕ) (lines texts : List Bytes) (bytes : Bytes)
      → (transcoding.source.has_header && (split_counter == 0)) ≡ false
      → length lines < rounds
      → Rows lines texts
      → (r : Reader V D A) × (new_reader formats transcoding split_counter lines bytes ≡ ok r)
        × Drained texts (drain formats transcoding split_counter rounds r)
  drain-new_reader rounds lines texts bytes headless le rows = (
    state lines [] [] [],
    new_reader-state lines bytes,
    drain-state headless rounds lines texts [] [] [] le rows (inl refl) tt,
  )
