-- ===== src/Config/Samples.antt =====
-- Configurations, keys and names on small inputs.
use smirror.Prelude.{
  length, ℕ, ◌*◌, ◌<◌, pos, negsuc, [], ◌∷◌, ◌++◌, none, some, true, false, ok, All, is_empty, ◌≡◌,
  ◌↔◌, inl, refl, arith,
}
use smirror.Text.Search.{codes, same, has_suffix, to_lower, to_upper}
use smirror.Text.Paths.{ext}
use smirror.External.{Urls}
use smirror.Config.Types.{Compression, Streaming, Partition, Codec, Transcoding, Rule, empty_rule}
use smirror.Config.Key.{text, number, KeyLibrary, key_of, hash_of, provided_key, word}
use smirror.Config.Key.Range.{key_of-lt, key_of_negative}
use smirror.Config.Key.Trimming.{key_of_collides}
use smirror.Config.Streaming.{init, init_sizes, mega_bytes}
use smirror.Config.Compression.{
  source_compression, source_compression_iff, init-source_compression, init_compression, has_split,
  Reads, gzip_codec, gzip_extension, is_set, compression_for_url,
}
use smirror.Config.RuleNames.{kept_folder, file_name, avro_extension, has_format}
use smirror.Config.RuleNames.Folders.{kept_folder-trim}
use smirror.Text.Parts.{split, trim}
use smirror.Config.RuleNames.Extensions.{file_name-avro_cuts, file_name-avro}
use smirror.Config.Matching.{has_match, match_rules}
use smirror.Config.Matching.Groups.{candidates, match_rules_complete}

-- A library of keys whose hashes are the bytes 0, 0, 0, 0, 0, 0, 0, 5 and 128, 0, 0, 0, 0, 0, 0, 0.
abbrev sample_keys : KeyLibrary
sample_keys = record {
  json_field = λ name line. ok (text line);
  as_int = λ key. pos 7;
  as_string = λ key. [];
  murmur = λ s. 0 ∷ 0 ∷ 0 ∷ 0 ∷ 0 ∷ 0 ∷ 0 ∷ 5 ∷ [];
  fnv = λ s. 128 ∷ 0 ∷ 0 ∷ 0 ∷ 0 ∷ 0 ∷ 0 ∷ 0 ∷ [];
  md5 = λ s. [];
}

abbrev murmur_partition : Partition
murmur_partition = record {
  field = codes "id";
  field_index = 0;
  separator = [];
  modulus = 3;
  hash = codes "murmur";
}

abbrev fnv_partition : Partition
fnv_partition = record {
  field = codes "id";
  field_index = 0;
  separator = [];
  modulus = 3;
  hash = codes "fnv";
}

abbrev decoded : Streaming
decoded = record {
  threshold_mb = 0;
  threshold = 0;
  part_size = 0;
  part_size_mb = 8;
  checksum_skip_threshold_mb = 0;
  checksum_skip_threshold = 0;
}

abbrev gzip_rule : Rule
gzip_rule = record empty_rule {
  compression = some (record { codec = gzip_codec; uncompress = false });
}

abbrev split_rule : Rule
split_rule = record gzip_rule {
  split = some (record { max_lines = 2; template = []; partition = none; max_size = 0 });
}

abbrev no_codec : Codec
no_codec = record {
  format = [];
  fields = [];
  has_header = false;
  delimiter = [];
  lazy_quotes = false;
  schema_url = [];
  record_per_block = 0;
  schema = [];
}

abbrev to_avro : Transcoding
to_avro = record {
  source = no_codec;
  dest = record no_codec { format = codes "avro" };
  path_mapping = [];
  max_bad_records = none;
  autodetect = false;
}

abbrev avro_rule : Rule
avro_rule = record empty_rule { transcoder = some to_avro }

abbrev unpacking_avro_rule : Rule
unpacking_avro_rule = record avro_rule {
  compression = some (record { codec = []; uncompress = true });
}

abbrev first_column : Partition
first_column = record { field = []; field_index = 0; separator = []; hash = []; modulus = 0 }

abbrev sample_urls : Urls
sample_urls = record {
  host = λ u. [];
  path = λ u. u;
  base = λ u. ([], u);
  scheme = λ u. [];
  split = λ u. ([], u);
  join = λ a b. a ++ b;
}

abbrev named_rule : Rule
named_rule = record empty_rule {
  info = record { workflow = []; url = codes "r"; slack_channel = [] };
}

key_of-lt_example :
    (r : ℕ) × (key_of sample_keys murmur_partition (codes "x") ≡ ok (number (pos r))) × (r < 3)
unfolding hash_of provided_key to_lower same word
key_of-lt_example =
    key_of-lt sample_keys murmur_partition (codes "x") (text (codes "x")) sample_keys.murmur refl
      (omega arith) refl refl (omega arith) (omega arith)

key_of_negative_example :
    (r : ℕ) × (key_of sample_keys fnv_partition (codes "x") ≡ ok (number (negsuc r)))
unfolding hash_of provided_key to_lower same word
key_of_negative_example =
    key_of_negative sample_keys fnv_partition (codes "x") (text (codes "x")) sample_keys.fnv refl
      (omega arith) (omega arith) refl refl refl

key_of_collides_example :
    key_of sample_keys first_column (codes "sen,1") ≡ key_of sample_keys first_column (codes "se,1")
unfolding split
key_of_collides_example =
    key_of_collides sample_keys first_column (codes "se,1") (codes "sen,1") (codes "se") b'n' refl
      refl refl (inl refl)

init_sizes_example :
    ((init decoded).threshold ≡ (init decoded).threshold_mb * mega_bytes)
    × ((init decoded).part_size ≡ (init decoded).part_size_mb * mega_bytes)
    × ((init decoded).checksum_skip_threshold
        ≡ (init decoded).checksum_skip_threshold_mb * mega_bytes)
    × (0 < (init decoded).threshold)
    × (0 < (init decoded).part_size)
    × (0 < (init decoded).checksum_skip_threshold)
    × (init (init decoded) ≡ init decoded)
init_sizes_example = init_sizes decoded (refl, refl, refl) (omega arith, omega arith, omega arith)

source_compression_iff_example : (is_set (source_compression split_rule (codes "a.gz")) ≡ true) ↔ (
    (has_suffix (codes "a.gz") gzip_extension ≡ true)
    × ((c : Compression) × (split_rule.compression ≡ some c) × Reads c))
source_compression_iff_example = source_compression_iff split_rule (codes "a.gz")

init-source_compression_example :
    source_compression
      (record split_rule { compression = init_compression split_rule })
      (codes "a.gz")
    ≡ some (record { codec = gzip_codec; uncompress = true })
unfolding has_split has_suffix
init-source_compression_example = init-source_compression split_rule (codes "a.gz") refl refl

file_name-avro_cuts_example :
    file_name unpacking_avro_rule (codes "data.gz") ((codes "d" ++ codes "ata") ++ gzip_extension)
    ≡ codes "d" ++ avro_extension
unfolding has_format source_compression compression_for_url has_suffix ext same to_upper
file_name-avro_cuts_example =
    file_name-avro_cuts unpacking_avro_rule (codes "data.gz") (codes "d") (codes "ata") to_avro refl
      refl refl refl refl refl

file_name-avro_example :
    file_name avro_rule (codes "data.csv") (codes "data" ++ codes ".csv")
    ≡ codes "data" ++ avro_extension
unfolding has_format source_compression compression_for_url has_suffix ext same to_upper
file_name-avro_example =
    file_name-avro avro_rule (codes "data.csv") (codes "data") (codes ".csv") to_avro refl refl refl
      refl refl refl

match_rules_complete_example :
    All
      (λ r. has_match sample_urls r (codes "x") ≡ true)
      (match_rules sample_urls (named_rule ∷ []) (codes "x"))
    × (is_empty (match_rules sample_urls (named_rule ∷ []) (codes "x"))
        ≡ is_empty (candidates sample_urls (codes "x") (named_rule ∷ [])))
match_rules_complete_example =
    match_rules_complete sample_urls (codes "x") (named_rule ∷ []) (ground arith, tt)

kept_folder-trim_example :
    (kept_folder none (codes "/a/b/") ≡ trim (codes "/a/b/") (codes "/"))
    × (kept_folder
          (some (pos (length (split (trim (codes "/a/b/") (codes "/")) (codes "/")))))
          (codes "/a/b/")
        ≡ trim (codes "/a/b/") (codes "/"))
kept_folder-trim_example = kept_folder-trim (codes "/a/b/")
