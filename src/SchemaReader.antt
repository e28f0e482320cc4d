-- ===== src/SchemaReader.antt =====
-- config/schema/reader.go: the reader that converts and checks the records of a text, line by line.
pub mod Fields
pub mod Filling
pub mod Reading
pub mod Samples
use smirror.Prelude.{
  ℕ, zero, suc, ◌+◌, ◌-◌, ◌%◌, List, [], ◌∷◌, ◌++◌, Bool, true, false, ◌&&◌, ◌||◌, not, Option,
  none, some, ltb, leb, ◌==◌, Bytes, Error, errorf, wrap, new_schema_error, Result, ok, err,
  is_empty, length, take, drop, get_elem?, if◌then◌else◌,
}
use smirror.Text.Search.{codes, same, to_upper}
use smirror.Text.Decimal.{decimal}
use smirror.Maps.{lookup, put}
use smirror.Splitter.Scan.{proceed}
use smirror.Config.Types.{Schema, Field}
use smirror.SchemaReader.Fields.{Toolbox, adjust_value, adjust_text}

unfoldable pub is_json : Schema → Bool
is_json s = same (to_upper s.format) (codes "JSON")

unfoldable pub is_csv : Schema → Bool
is_csv s = same (to_upper s.format) (codes "CSV")

-- The packages json and csv and the strings replacer; a record is a map of fields to values.
pub record Formats (V : Type 0) : Type 0 where
  pub valid : Bytes → Bool
  -- `Unmarshal` into an empty map: what the map holds after it, and the error
  pub unmarshal : Bytes → List (Bytes × V) × Option Error
  pub marshal : List (Bytes × V) → Result Bytes
  -- `NewCsvReader(data).Read()` and the text of `csv.Writer.Write`, by delimiter and lazy quotes
  pub read_csv : Schema → Bytes → Result (List Bytes)
  pub write_csv : Schema → List Bytes → Result Bytes

-- The reader's parameters: the rule's schema and its replacer.
pub record Rules (V T : Type 0) : Type 0 where
  pub schema : Option Schema
  pub replacer : Option (Bytes → Bytes)
  pub formats : Formats V
  pub toolbox : Toolbox V T

-- The reader's state. `tokens` are the lines that the scanner still gives; `count` is an int32.
pub record Reader : Type 0 where
  pub tokens : List Bytes
  pub count : ℕ
  pub buf : Bytes
  pub pending : ℕ
  pub read_eof : Bool
  pub write_eof : Bool
  pub bad_records : ℕ

-- the errors of `Read`: `io.EOF` and others
pub data ReadError : Type 0 where
  eof : ReadError
  failure : Error → ReadError

unfoldable pub new_reader : List Bytes → Reader
new_reader lines = record {
  tokens = lines;
  count = 0;
  buf = [];
  pending = 0;
  read_eof = false;
  write_eof = false;
  bad_records = 0;
}

-- `record[:n]`, or the record with empty fields up to the count
unfoldable pub fit : ℕ → List Bytes → List Bytes
fit zero record_fields = []
fit (suc n) [] = [] ∷ fit n []
fit (suc n) (f ∷ fs) = f ∷ fit n fs

unfoldable pub set_elem : ℕ → Bytes → List Bytes → List Bytes
set_elem i value [] = []
set_elem zero value (f ∷ fs) = value ∷ fs
set_elem (suc i) value (f ∷ fs) = f ∷ set_elem i value fs

-- a count as an int32, and whether that is positive
abbrev pub int32 : ℕ → ℕ
int32 n = n % 4294967296

abbrev pub is_positive : ℕ → Bool
is_positive n = ltb 0 n && ltb n 2147483648

module _ {V T : Type 0} (rules : Rules V T) where
  unfoldable pub adjust_csv_data_type : List Field → List Bytes → Result (List Bytes)
  adjust_csv_data_type [] values = ok values
  adjust_csv_data_type (f ∷ fs) values = elim f.position [
    | none ↦ adjust_csv_data_type fs values
    | some index ↦ elim (get_elem? values index) [
      | none ↦ adjust_csv_data_type fs values
      | some value ↦ elim (adjust_text rules.toolbox f value) [
        | err e ↦ err e
        | ok adjusted ↦ adjust_csv_data_type fs (set_elem index adjusted values)
      ]
    ]
  ]

  abbrev without_last : Bytes → Bytes
  without_last text = take (length text - 1) text

  unfoldable pub adjust_csv_values : Schema → Bytes → Bytes × Option Error
  adjust_csv_values s bytes = elim (rules.formats.read_csv s bytes) [
    | err e ↦ ([], some e)
    | ok values ↦
        elim (adjust_csv_data_type s.fields
          (if s.field_count == 0 then values else fit s.field_count values)) [
            | err e ↦ ([], some e)
            | ok adjusted ↦ elim (rules.formats.write_csv s adjusted) [
              | err e ↦ ([], some e)
              | ok line ↦ (without_last line, none)
            ]
          ]
  ]

  -- The loop over the fields: the record, and the error of the last one that was found.
  unfoldable pub adjust_fields :
      List Field → List (Bytes × V) → Option Error → Result (List (Bytes × V) × Option Error)
  adjust_fields [] values e = ok (values, e)
  adjust_fields (f ∷ fs) values e = elim (lookup f.name values) [
    | none ↦ adjust_fields fs values e
    | some value ↦ elim (adjust_value rules.toolbox f value) [
      | err failed ↦ err failed
      | ok adjusted ↦ adjust_fields fs (put f.name adjusted values) none
    ]
  ]

  unfoldable pub marshalled :
      Bytes → Result (List (Bytes × V) × Option Error) → Bytes × Option Error
  marshalled bytes (err e) = ([], some e)
  marshalled bytes (ok (values, e)) = elim (rules.formats.marshal values) [
    | ok updated ↦ (updated, e)
    | err ignored ↦ (bytes, e)
  ]

  unfoldable pub adjust_json_values : Schema → Bytes → Bytes × Option Error
  adjust_json_values s bytes =
      if is_empty s.fields
      then (bytes, none)
      else let (values, e) = rules.formats.unmarshal bytes in
        marshalled bytes (adjust_fields s.fields values e)

  -- The record that a line becomes, and its error; an empty record is dropped.
  unfoldable pub convert : Bytes → Bytes × Option Error
  convert line =
      let bytes : Bytes = elim rules.replacer [ none ↦ line | some replace ↦ replace line ] in
      if is_empty bytes then ([], none) else (elim rules.schema [
        | none ↦ (bytes, none)
        | some s ↦
            if is_json s && not (rules.formats.valid bytes)
            then ([], (rules.formats.unmarshal bytes).1)
            else (if is_csv s
                then adjust_csv_values s bytes
                else (if is_json s then adjust_json_values s bytes else (bytes, none)))
      ])

  abbrev pub max_bad_records : Option ℕ
  max_bad_records = elim rules.schema [ none ↦ none | some s ↦ s.max_bad_records ]

  unfoldable pub too_many : ℕ → Error → Error
  too_many n e = new_schema_error (wrap (codes "too many bad records: " ++ decimal n) e)

  unfoldable pub fail_if_too_many_bad_records : Option Error → Reader → Option Error × Reader
  fail_if_too_many_bad_records none r = (none, r)
  fail_if_too_many_bad_records (some e) r = elim max_bad_records [
    | none ↦ (none, r)
    | some most ↦
        let bad : ℕ = suc r.bad_records in
        (if leb most bad then some (too_many bad e) else none, record r { bad_records = bad })
  ]

  unfoldable pub write_record : Bytes → Reader → Reader
  write_record [] r = r
  write_record (b ∷ bytes) r = record r {
    buf = r.buf ++ (if is_positive r.count then b'\n' ∷ b ∷ bytes else b ∷ bytes);
    pending =
        r.pending + (if is_positive r.count then suc (length (b ∷ bytes)) else length (b ∷ bytes));
    count = int32 (suc r.count);
  }

  -- what is done with a record, if its error was not one too many
  unfoldable pub write_if : Bytes → Option Error × Reader → Option Error × Reader
  write_if bytes (none, r) = (none, write_record bytes r)
  write_if bytes (some e, r) = (some e, r)

  -- `transform` of a line, which the scanner no longer gives
  unfoldable pub transform_line : Bytes → Reader → Option Error × Reader
  transform_line line r =
      let (bytes, e) = convert line in write_if bytes (fail_if_too_many_bad_records e r)

  -- The loop of `Read`: it takes lines until enough is pending, and notes the end of the text.
  unfoldable pub fill : ℕ → List Bytes → Reader → Option Error × Reader
  fill expect [] r =
      if ltb r.pending expect && not r.read_eof
      then (none, record r { read_eof = true })
      else (none, r)
  fill expect (line ∷ lines) r =
      let rest = fill expect lines in
      if ltb r.pending expect && not r.read_eof
      then proceed (transform_line line (record r { tokens = lines })) rest
      else (none, r)

  -- what the buffer gives for a slice of a length
  unfoldable pub read_buffer : ℕ → Option Error × Reader → (Bytes × Option ReadError) × Reader
  read_buffer expect (some e, r) = (([], some (failure e)), r)
  read_buffer expect (none, r) =
      let bytes : Bytes = take expect r.buf in
      let rest : Reader = record r {
        buf = drop expect r.buf;
        pending = r.pending - length bytes;
      } in
      if is_empty bytes
      then (if r.read_eof
          then (
            ([], if is_empty r.buf && not (expect == 0) then some eof else none),
            record rest { write_eof = true },
          )
          else (([], none), rest))
      else ((bytes, none), rest)

  -- `Read` into a slice of a length
  unfoldable pub read : ℕ → Reader → (Bytes × Option ReadError) × Reader
  read expect r =
      if r.write_eof then (([], some eof), r) else read_buffer expect (fill expect r.tokens r)

  -- a round's bytes in front of those of the next ones, unless it ends the reading
  abbrev pub gather :
      (Bytes × Option ReadError) × Reader
      → (Reader → Bytes × Option ReadError)
      → Bytes × Option ReadError
  gather ((bytes, some e), r) next = (bytes, some e)
  gather ((bytes, none), r) next = let (rest, e) = next r in (bytes ++ rest, e)

  -- `ioutil.ReadAll`, in rounds of a slice of a length
  unfoldable pub read_all : ℕ → ℕ → Reader → Bytes × Option ReadError
  read_all zero expect r = ([], none)
  read_all (suc rounds) expect r = gather (read expect r) (read_all rounds expect)
