-- ===== src/Config/RuleNames.antt =====
-- `Rule.Name` of config/rule.go: the path of an asset below its destination.
pub mod Extensions
pub mod Folders
use smirror.Prelude.{
  ℕ, zero, suc, ◌+◌, ◌-◌, ℤ, pos, negsuc, is_negative, abs, List, [], ◌∷◌, ◌++◌, Bool, true, false,
  not, ◌&&◌, Option, none, some, ltb, leb, if◌then◌else◌, Bytes, length, take, drop, is_empty,
}
use smirror.Text.Search.{codes, same, has_prefix, to_upper}
use smirror.Text.Parts.{trim, split, join}
use smirror.Text.Paths.{split_path, ext, join_path}
use smirror.External.{Urls}
use smirror.Config.Types.{Compression, Transcoding, Codec, Rule}
use smirror.Config.Compression.{
  gzip_codec, gzip_extension, source_compression, uncompresses, has_codec,
}

abbrev pub avro_extension : Bytes
avro_extension = codes ".avro"

-- `Codec.IsAvro`, `IsCSV`, `IsJSON`, `IsXLSX` of config/transcoding/codec.go
unfoldable pub has_format : Codec → Bytes → Bool
has_format c name = same (to_upper c.format) name

-- `name[:len(name)-n]`; a negative bound, at which the code panics, takes nothing.
unfoldable pub drop_end : ℕ → Bytes → Bytes
drop_end n name = take (length name - n) name

-- the codec's extension
unfoldable pub compressed_name : Option Compression → Option Compression → Bytes → Bytes → Bytes
compressed_name compression source extension name =
    if has_codec compression
    then elim compression [
      | none ↦ name
      | some c ↦
          if same c.codec gzip_codec && not (same extension gzip_extension)
          then name ++ gzip_extension
          else name
    ]
    else if uncompresses source && same extension gzip_extension
    then drop_end (length extension) name
    else name

-- the transcoder's extension, in place of as many bytes as the source's extension has
unfoldable pub transcoded_name : Option Transcoding → Bytes → Bytes → Bytes
transcoded_name none extension name = name
transcoded_name (some t) extension name =
    if has_format t.dest (codes "AVRO") && not (same extension avro_extension)
    then drop_end (length extension) name ++ avro_extension
    else name

-- The last `depth` folders, or for a negative depth all but the first ones.
unfoldable pub kept_folder : Option ℤ → Bytes → Bytes
kept_folder none parent =
    let folder = trim parent (codes "/") in
    let fragments = split folder (codes "/") in
    join (drop (length fragments - length fragments) fragments) (codes "/")
kept_folder (some depth) parent =
    let folder = trim parent (codes "/") in
    let fragments = split folder (codes "/") in
    if leb (abs depth) (length fragments)
    then if is_negative depth
      then join (drop (abs depth) fragments) (codes "/")
      else join (drop (length fragments - abs depth) fragments) (codes "/")
    else if has_prefix folder (codes "/")
    then drop 1 folder
    else folder

-- `depth == 0 && r.HasPreserveDepth()`
unfoldable pub is_flat : Option ℤ → Bool
is_flat none = false
is_flat (some (pos zero)) = true
is_flat (some (pos (suc n))) = false
is_flat (some (negsuc n)) = false

unfoldable pub file_name : Rule → Bytes → Bytes → Bytes
unfolding compressed_name transcoded_name
file_name r url name =
    transcoded_name r.transcoder (ext name)
      (compressed_name r.compression (source_compression r url) (ext name) name)

module _ (urls : Urls) where
  unfoldable pub rule_name : Rule → Bytes → Bytes
  unfolding file_name
  rule_name r url =
      let (parent, name) = split_path (urls.base url).1 in
      if is_flat r.preserve_depth
      then file_name r url name
      else join_path (kept_folder r.preserve_depth parent) (file_name r url name)
