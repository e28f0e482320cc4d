-- ===== src/SchemaReader/Samples.antt =====
-- Three lines of a CSV text, of which the second cannot be read.
use smirror.Prelude.{
  List, [], ◌∷◌, ◌++◌, true, false, none, some, Bytes, errorf, Result, ok, err, ◌≡◌, refl, arith,
  ◌==◌, if◌then◌else◌,
}
use smirror.Text.Search.{codes, same, to_upper, to_lower}
use smirror.Text.Parts.{split, join, trim_space}
use smirror.Config.Types.{Schema, Field}
use smirror.Splitter.Scan.{content}
use smirror.SchemaReader.Fields.{Toolbox, adjust_text}
use smirror.SchemaReader.{
  Rules, Formats, eof, new_reader, read_all, convert, adjust_csv_values, adjust_csv_data_type, fit,
  is_csv, is_json, set_elem,
}
use smirror.SchemaReader.Filling.{records, bad}
use smirror.SchemaReader.Reading.{read_all-new_reader}

abbrev pub text_toolbox : Toolbox Bytes Bytes
text_toolbox = record {
  text = λ t. t;
  as_string = λ t. t;
  to_time = λ t layout. ok t;
  format = λ t layout. t;
  to_float = λ t. ok t;
  to_int = λ t. ok (codes "0");
  to_boolean = λ t. ok t;
  date_format_to_layout = λ t. t;
}

abbrev parse_line : Bytes → Result (List Bytes)
parse_line [] = err (errorf (codes "EOF"))
parse_line (c ∷ line) =
    if c == b'!' then err (errorf (codes "bare quote")) else ok (split (c ∷ line) (codes ","))

abbrev text_formats : Formats Bytes
text_formats = record {
  valid = λ t. true;
  unmarshal = λ t. ([], none);
  marshal = λ values. ok [];
  read_csv = λ s line. parse_line line;
  write_csv = λ s values. ok (join values (codes ",") ++ b'\n' ∷ []);
}

abbrev int_field : Field
int_field = record {
  name = codes "n";
  position = some 0;
  data_type = codes "int";
  source_date_format = [];
  source_date_layout = [];
  target_date_format = [];
  target_date_layout = [];
}

abbrev csv_schema : Schema
csv_schema = record {
  max_bad_records = some 2;
  format = codes "csv";
  delimiter = [];
  lazy_quotes = false;
  field_count = 2;
  fields = int_field ∷ [];
}

abbrev csv_rules : Rules Bytes Bytes
csv_rules = record {
  schema = some csv_schema;
  replacer = none;
  formats = text_formats;
  toolbox = text_toolbox;
}

abbrev three_lines : List Bytes
three_lines = codes "7,x,y" ∷ codes "!" ∷ codes "8" ∷ []

records_of_lines :
    (records csv_rules three_lines ≡ codes "0,x" ∷ codes "0," ∷ [])
    × (bad csv_rules three_lines ≡ 1)
unfolding convert adjust_csv_values adjust_csv_data_type fit is_csv is_json set_elem adjust_text
    same to_upper to_lower split join trim_space
records_of_lines = (refl, refl)

read_all-new_reader_example :
    read_all csv_rules 9 2 (new_reader three_lines)
    ≡ (content (records csv_rules three_lines), some eof)
unfolding join
read_all-new_reader_example =
    read_all-new_reader csv_rules 9 2 three_lines (omega arith) (omega arith)
      (λ most e. ground (arith, e, records_of_lines.1)) (rw records_of_lines.0 (omega arith))
