-- ===== src/Transcoder.antt =====
-- transcoder/reader.go: the reader that turns the records of a CSV, JSON or XLSX file into JSON lines
-- or Avro.
pub mod Settings
pub mod Rows
pub mod Headers
pub mod Columns
pub mod Samples
use smirror.Prelude.{
  ℕ, zero, suc, ◌+◌, ◌-◌, ◌%◌, List, [], ◌∷◌, ◌++◌, Bool, true, false, ◌&&◌, ◌||◌, not, Option,
  none, some, ltb, leb, ◌==◌, Bytes, Error, errorf, wrap, Result, ok, err, is_empty, length, take,
  drop, if◌then◌else◌,
}
use smirror.Text.Search.{codes, same, to_upper}
use smirror.Text.Decimal.{decimal}
use smirror.Maps.{put}
use smirror.Config.Types.{Codec, Mapping, Transcoding}
use smirror.Splitter.Scan.{proceed}
use smirror.SchemaReader.{ReadError, eof, failure}

-- The packages csv and json, the maps of toolbox, the decoder of sheets (a state `D`) and the writer of
-- Avro blocks (a state `A`), each with the bytes that it writes. `V` are the values of a record.
pub record Formats (V D A : Type 0) : Type 0 where
  pub text : Bytes → V
  -- `csvReader(line).Read()`
  pub read_csv : Codec → Bytes → Result (List Bytes)
  -- `json.Unmarshal` into a map, which keeps the entries that the text does not name
  pub unmarshal : Bytes → List (Bytes × V) → List (Bytes × V) × Option Error
  pub marshal : List (Bytes × V) → Result Bytes
  pub get_value : Bytes → List (Bytes × V) → Option V
  pub set_value : Bytes → V → List (Bytes × V) → List (Bytes × V)
  pub has_more : D → Bool
  pub next_record : D → List (Bytes × V) → (List (Bytes × V) × Option Error) × D
  pub write_record : List (Bytes × V) → A → (Bytes × Option Error) × A
  pub flush : A → (Bytes × Option Error) × A
  pub sheet_schema : D → Bytes
  pub new_sheet : Bytes → Result D
  -- the error of `schma.New` and that of `avro.SetWriter`
  pub load_schema : Bytes → Option Error
  pub set_writer : Bytes → Option Error
  -- `container.NewWriter` by the block's size and the schema: nil on an error, which is dropped
  pub new_writer : ℕ → Bytes → Option A

abbrev pub is_format : Codec → Bytes → Bool
is_format c name = same (to_upper c.format) name

-- The reader's state. `tokens` are the lines that the scanner still gives, `line` the last one; `fields`
-- are both its own ones and those of the source, which are the same from the start; `pending` is left out,
-- as it is true up to the end of the input. Writing without a writer, which panics, writes nothing.
pub record Reader (V D A : Type 0) : Type 0 where
  pub tokens : List Bytes
  pub line : Bytes
  pub sheet : Option D
  pub avro : Option A
  pub fields : List Bytes
  pub record_map : List (Bytes × V)
  pub output : Bytes
  pub count : ℕ
  pub bad_records : ℕ
  pub read_eof : Bool
  pub write_eof : Bool

-- the values of a line under the names of the fields, as far as there are both
unfoldable pub put_fields :
    {V : Type 0} → (Bytes → V) → List Bytes → List Bytes → List (Bytes × V) → List (Bytes × V)
put_fields text [] values entries = entries
put_fields text (f ∷ fs) [] entries = entries
put_fields text (f ∷ fs) (v ∷ vs) entries = put_fields text fs vs (put f (text v) entries)

module _ {V D A : Type 0} (formats : Formats V D A) (transcoding : Transcoding)
    (split_counter : ℕ) where
  -- `Scan` and `Bytes`
  unfoldable pub scan : Reader V D A → Bool × Reader V D A
  scan r = elim r.tokens [
    | [] ↦ (false, record r { line = [] })
    | line ∷ lines ↦ (true, record r { tokens = lines; line = line })
  ]

  unfoldable pub has_more : Reader V D A → Bool × Reader V D A
  has_more r = elim r.sheet [ none ↦ scan r | some d ↦ (formats.has_more d, r) ]

  -- the record of the current line
  unfoldable pub read_line : Reader V D A → Option Error × Reader V D A
  read_line r =
      if is_format transcoding.source (codes "CSV")
      then (elim (formats.read_csv transcoding.source r.line) [
        | err e ↦ (some e, r)
        | ok values ↦
            (none, record r { record_map = put_fields formats.text r.fields values r.record_map })
      ])
      else (if is_format transcoding.source (codes "JSON")
          then (
            (formats.unmarshal r.line r.record_map).1,
            record r { record_map = (formats.unmarshal r.line r.record_map).0 },
          )
          else (
            some (errorf (codes "unsupported source format: " ++ transcoding.source.format)),
            r,
          ))

  -- the fields of a header, unless they are declared, and the line behind it, if there is one
  unfoldable pub skip_header : List Bytes → Reader V D A → Option Error × Reader V D A
  skip_header names r =
      let (more, next) = scan (if is_empty r.fields then record r { fields = names } else r) in
      if more then read_line next else (none, next)

  unfoldable pub next_line : Reader V D A → Option Error × Reader V D A
  next_line r =
      if transcoding.source.has_header && split_counter == 0
      then (elim (formats.read_csv transcoding.source r.line) [
        | err e ↦ (some e, r)
        | ok names ↦ skip_header names r
      ])
      else read_line r

  -- `next`
  unfoldable pub next : Reader V D A → Option Error × Reader V D A
  next r = elim r.sheet [
    | none ↦ next_line r
    | some d ↦
        let ((entries, e), d') = formats.next_record d r.record_map in
        (e, record r { record_map = entries; sheet = some d' })
  ]

  -- the loop over the path mappings
  unfoldable pub map_paths : List Mapping → List (Bytes × V) → List (Bytes × V) → List (Bytes × V)
  map_paths [] original mapped = mapped
  map_paths (m ∷ ms) original mapped = elim (formats.get_value m.from original) [
    | none ↦ map_paths ms original mapped
    | some value ↦ map_paths ms original (formats.set_value m.to value mapped)
  ]

  unfoldable pub mapped_record : Option Error × Reader V D A → Option Error × Reader V D A
  mapped_record (some e, r) = (some e, r)
  mapped_record (none, r) = elim transcoding.path_mapping [
    | [] ↦ (none, r)
    | m ∷ ms ↦ (none, record r { record_map = map_paths (m ∷ ms) r.record_map [] })
  ]

  unfoldable pub next_record : Reader V D A → Option Error × Reader V D A
  next_record r = mapped_record (next r)

  unfoldable pub too_many : ℕ → ℕ → Error → Error
  too_many bad most e =
      wrap
        (codes "too many bad records: " ++ decimal bad ++ codes ", max allowed: " ++ decimal most) e

  -- an error counts as a bad record, and is one too many at the limit
  unfoldable pub note_bad : Option Error × Reader V D A → Option Error × Reader V D A
  note_bad (none, r) = (none, r)
  note_bad (some e, r) =
      let bad : ℕ = suc r.bad_records in
      let noted : Reader V D A = record r { bad_records = bad } in
      elim transcoding.max_bad_records [
        | none ↦ (none, noted)
        | some most ↦ (if leb most bad then some (too_many bad most e) else none, noted)
      ]

  -- a line of output, behind the others
  unfoldable pub write_line : Bytes → Reader V D A → Reader V D A
  write_line line r = record r {
    output = if is_empty r.output then line else r.output ++ (b'\n' ∷ line);
  }

  unfoldable pub write_noted : Option Error × Reader V D A → Option Error × Reader V D A
  write_noted (none, r) = (none, write_line [] r)
  write_noted (some e, r) = (some e, r)

  unfoldable pub write_json : Option Error × Reader V D A → Option Error × Reader V D A
  write_json (some e, r) = (some e, r)
  write_json (none, r) =
      if is_empty r.record_map then (none, r) else (elim (formats.marshal r.record_map) [
        | ok line ↦ (none, write_line line r)
        | err e ↦ write_noted (note_bad (some e, r))
      ])

  unfoldable pub transform_record_to_json : Reader V D A → Option Error × Reader V D A
  transform_record_to_json r =
      let (more, r') = has_more r in
      if more then write_json (note_bad (next_record r')) else (none, record r' { read_eof = true })

  abbrev pub avro_step : Reader V D A → (Bytes × Option Error) × A → Option Error × Reader V D A
  avro_step r ((bytes, e), a) = (e, record r { output = r.output ++ bytes; avro = some a })

  unfoldable pub write_avro : Option Error × Reader V D A → Option Error × Reader V D A
  write_avro (some e, r) = (some e, r)
  write_avro (none, r) = if is_empty r.record_map then (none, r) else (elim r.avro [
    | none ↦ (none, r)
    | some a ↦ avro_step (record r { count = suc r.count }) (formats.write_record r.record_map a)
  ])

  unfoldable pub transform_record_to_avro : Reader V D A → Option Error × Reader V D A
  transform_record_to_avro r =
      let (more, r') = has_more r in
      if more then write_avro (note_bad (next_record r')) else (elim r'.avro [
        | none ↦ (none, record r' { read_eof = true })
        | some a ↦ avro_step (record r' { read_eof = true }) (formats.flush a)
      ])

  unfoldable pub transform_record : Reader V D A → Option Error × Reader V D A
  transform_record r =
      if is_format transcoding.dest (codes "JSON")
      then transform_record_to_json r
      else (if is_format transcoding.dest (codes "AVRO") then transform_record_to_avro r else (
        some (errorf (codes "unsupported " ++ transcoding.dest.format ++ codes " dest format")),
        r,
      ))

  -- The loops of `Read` and of the transformations: records are transformed up to the end of the input,
  -- or to the first error.
  unfoldable pub drain : ℕ → Reader V D A → Option Error × Reader V D A
  drain zero r = (none, r)
  drain (suc rounds) r =
      let rest = drain rounds in if r.read_eof then (none, r) else proceed (transform_record r) rest

  unfoldable pub read_output :
      ℕ → Option Error × Reader V D A → (Bytes × Option ReadError) × Reader V D A
  read_output expect (some e, r) = (([], some (failure e)), r)
  read_output expect (none, r) =
      let bytes : Bytes = take expect r.output in
      let rest : Reader V D A = record r { output = drop expect r.output } in
      if is_empty bytes
      then (if r.read_eof
          then (
            ([], if is_empty r.output && not (expect == 0) then some eof else none),
            record rest { write_eof = true },
          )
          else (([], none), rest))
      else ((bytes, none), rest)

  -- `Read` into a slice of a length, with enough rounds for the input
  unfoldable pub read : ℕ → ℕ → Reader V D A → (Bytes × Option ReadError) × Reader V D A
  read rounds expect r =
      if r.write_eof then (([], some eof), r) else read_output expect (drain rounds r)

  -- the scanner of lines or the decoder of a sheet
  unfoldable pub new_input : List Bytes → Bytes → Result (Reader V D A)
  new_input lines content =
      let scanned : Reader V D A = record {
        tokens = lines;
        line = [];
        sheet = none;
        avro = none;
        fields = transcoding.source.fields;
        record_map = [];
        output = [];
        count = 0;
        bad_records = 0;
        read_eof = false;
        write_eof = false;
      } in
      if is_format transcoding.source (codes "XLSX")
      then (elim (formats.new_sheet content) [
        | err e ↦ err (wrap (codes "failed to open xls decoder") e)
        | ok d ↦ ok (record scanned { sheet = some d })
      ])
      else ok scanned

  -- the schema of the Avro file: that of the sheet, or the declared one
  unfoldable pub raw_schema : Reader V D A → Bytes
  raw_schema r = elim r.sheet [ none ↦ transcoding.dest.schema | some d ↦ formats.sheet_schema d ]

  unfoldable pub with_avro : Reader V D A → Result (Reader V D A)
  with_avro r =
      if is_empty (raw_schema r)
      then err (errorf (codes "avro schema was empty, " ++ transcoding.dest.schema_url))
      else (elim (formats.load_schema (raw_schema r)) [
        | some e ↦ err (wrap (codes "failed to load schema: " ++ transcoding.dest.schema_url) e)
        | none ↦ elim (formats.set_writer (raw_schema r)) [
          | some e ↦
              err (wrap (codes "failed to set avro writer: " ++ transcoding.dest.schema_url) e)
          | none ↦ ok (record r {
            avro =
                formats.new_writer
                  (if transcoding.dest.record_per_block == 0
                    then 20
                    else transcoding.dest.record_per_block)
                  (raw_schema r);
          })
        ]
      ])

  -- `NewReader` of a content that scans to lines
  unfoldable pub new_reader : List Bytes → Bytes → Result (Reader V D A)
  new_reader lines content = elim (new_input lines content) [
    | err e ↦ err e
    | ok r ↦
        if is_format transcoding.dest (codes "JSON")
        then ok r
        else (if is_format transcoding.dest (codes "AVRO") then with_avro r else ok r)
  ]
