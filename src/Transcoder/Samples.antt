-- ===== src/Transcoder/Samples.antt =====
-- CSV lines with one field, which become JSON lines.
use smirror.Prelude.{ℕ, [], ◌∷◌, Bool, false, none, some, Bytes, errorf, ok, err, ◌≡◌, refl, arith}
use smirror.Text.Search.{codes, to_upper, same}
use smirror.Config.Types.{Codec, Transcoding}
use smirror.Transcoder.{Formats, Reader, new_reader, drain}
use smirror.Transcoder.Rows.{IsTabular, Drained, drain-new_reader}

abbrev line_formats : Formats Bytes ℕ ℕ
line_formats = record {
  text = λ t. t;
  read_csv = λ c line. ok (line ∷ []);
  unmarshal = λ line entries. (entries, none);
  marshal = λ entries. ok (b'{' ∷ elim entries [ [] ↦ [] | e ∷ es ↦ e.1 ]);
  get_value = λ path entries. none;
  set_value = λ path value entries. entries;
  has_more = λ d. false;
  next_record = λ d entries. ((entries, none), d);
  write_record = λ entries a. (([], none), a);
  flush = λ a. (([], none), a);
  sheet_schema = λ d. [];
  new_sheet = λ content. err (errorf (codes "no sheet"));
  load_schema = λ schema. none;
  set_writer = λ schema. none;
  new_writer = λ size schema. some 0;
}

abbrev codec_of : Bytes → Bool → Codec
codec_of format has_header = record {
  format = format;
  fields = codes "a" ∷ [];
  has_header = has_header;
  delimiter = [];
  lazy_quotes = false;
  schema_url = [];
  record_per_block = 0;
  schema = [];
}

abbrev to_json : Bool → Transcoding
to_json has_header = record {
  source = codec_of (codes "csv") has_header;
  dest = codec_of (codes "json") false;
  path_mapping = [];
  max_bad_records = none;
  autodetect = false;
}

to_json-IsTabular : (has_header : Bool) → IsTabular (to_json has_header)
unfolding to_upper same
to_json-IsTabular has_header = record {
  csv = refl;
  not_xlsx = refl;
  json = refl;
  unmapped = refl;
  declared = refl;
  distinct = (tt, tt);
}

drain-new_reader_example :
    (r : Reader Bytes ℕ ℕ) × (new_reader line_formats
        (to_json false)
        0
        (codes "1" ∷ codes "2" ∷ [])
        []
      ≡ ok r)
    × Drained line_formats
        (to_json false)
        0
        (to_json-IsTabular false)
        (codes "{1" ∷ codes "{2" ∷ [])
        (drain line_formats (to_json false) 0 3 r)
drain-new_reader_example =
    drain-new_reader line_formats (to_json false) 0 (to_json-IsTabular false) 3
      (codes "1" ∷ codes "2" ∷ []) (codes "{1" ∷ codes "{2" ∷ []) [] refl (omega arith)
      ((codes "1" ∷ [], refl, refl, refl, refl), ((codes "2" ∷ [], refl, refl, refl, refl), refl))
