-- ===== src/Transcoder/Settings.antt =====
-- config/transcoding.go: the check and the completion of a transcoding.
use smirror.Prelude.{
  ◌++◌, ◌&&◌, ◌||◌, not, Option, none, some, ◌==◌, Bytes, Error, errorf, wrap, Result, ok, err,
  is_empty, if◌then◌else◌,
}
use smirror.Text.Search.{codes}
use smirror.Config.Types.{Codec, Transcoding}
use smirror.Transcoder.{is_format}

unfoldable pub validate : Transcoding → Option Error
validate t =
    if not (
      is_format t.source (codes "JSON")
      || is_format t.source (codes "CSV")
      || is_format t.source (codes "XLSX"))
    then some (errorf (codes "unsupported source format: " ++ t.source.format))
    else (if is_format t.source (codes "CSV") && is_empty t.source.fields && not t.source.has_header
        then some
            (errorf (codes "source fields were empty: for " ++ t.source.format ++ codes " format"))
        else (if not (is_format t.dest (codes "AVRO") || is_format t.dest (codes "JSON"))
            then some (errorf (codes "unsupported dest format: " ++ t.dest.format))
            else (if is_format t.dest (codes "AVRO") && is_empty t.dest.schema
                then some (errorf (codes "dest schema was empty: " ++ t.dest.schema_url))
                else none)))

-- `LoadSchema`, of what `OpenURL` gives, and `ReadAll` of that
unfoldable pub load_schema : (Bytes → Result (Result Bytes)) → Codec → Result Codec
load_schema fetch c = if not (is_empty c.schema) then ok c else (elim (fetch c.schema_url) [
  | err e ↦ err (wrap (codes "failed to load avro Schema: " ++ c.schema_url) e)
  | ok (err e) ↦ err e
  | ok (ok schema) ↦ ok (record c { schema = schema })
])

-- `Init`: the error, if there is one, and the transcoding
unfoldable pub init : (Bytes → Result (Result Bytes)) → Transcoding → Option Error × Transcoding
init fetch t =
    let sized : Codec =
      if t.dest.record_per_block == 0 then record t.dest { record_per_block = 40 } else t.dest in
    if is_empty sized.schema_url || not (is_empty sized.schema)
    then (none, record t { dest = sized })
    else (elim (load_schema fetch sized) [
      | err e ↦ (some e, record t { dest = sized })
      | ok loaded ↦ (none, record t { dest = loaded })
    ])
