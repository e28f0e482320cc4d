-- ===== src/Config/RuleNames/Extensions.antt =====
-- The extension that a destination name gets.
use smirror.Prelude.{
  ◌-◌, [], ◌∷◌, ◌++◌, true, false, none, some, Bytes, length, take, length-append, ◌≡◌, refl, sym,
  ◌∙◌, ap, arith,
}
use smirror.Text.Search.{codes, same}
use smirror.Text.Paths.{ext}
use smirror.Config.Types.{Transcoding, Rule}
use smirror.Config.Compression.{gzip_extension, source_compression, uncompresses, has_codec}
use smirror.Config.RuleNames.{
  has_format, drop_end, compressed_name, transcoded_name, file_name, avro_extension,
}

take-append : (s t : Bytes) → take (length s) (s ++ t) ≡ s
take-append [] t = refl
take-append (x ∷ s) t = ap (λ (r : Bytes). x ∷ r) (take-append s t)

drop_end-append : (s t : Bytes) → drop_end (length t) (s ++ t) ≡ s
unfolding drop_end
drop_end-append s t =
    let e : length (s ++ t) - length t ≡ length s = omega (arith, length-append s t) in
    rw e (take-append s t)

-- An Avro transcoding takes as many bytes off the name as the source's extension has, after that
-- extension is gone: a gzip source that the rule uncompresses, without a codec, loses the three bytes
-- in front of `.gz` as well, before `.avro` is added. The name has three bytes there.
pub file_name-avro_cuts :
    (r : Rule) (url stem cut : Bytes) (t : Transcoding)
    → length cut ≡ 3
    → r.transcoder ≡ some t
    → has_format t.dest (codes "AVRO") ≡ true
    → has_codec r.compression ≡ false
    → uncompresses (source_compression r url) ≡ true
    → ext ((stem ++ cut) ++ gzip_extension) ≡ gzip_extension
    → file_name r url ((stem ++ cut) ++ gzip_extension) ≡ stem ++ avro_extension
unfolding file_name compressed_name transcoded_name
file_name-avro_cuts r url stem cut t three transcodes avro no_codec gz extension =
    let shorter : drop_end 3 (stem ++ cut) ≡ stem =
      sym (ap (λ n. drop_end n (stem ++ cut)) three) ∙ drop_end-append stem cut in
    rw (gz, no_codec, extension)
      (rw (transcodes, avro)
        (rw (drop_end-append (stem ++ cut) gzip_extension)
          (unfold same in ap (λ (s : Bytes). s ++ avro_extension) shorter)))

-- Where the source is not compressed and the rule has no codec, the extension gives way to `.avro`.
pub file_name-avro :
    (r : Rule) (url stem extension : Bytes) (t : Transcoding)
    → r.transcoder ≡ some t
    → has_format t.dest (codes "AVRO") ≡ true
    → has_codec r.compression ≡ false
    → source_compression r url ≡ none
    → ext (stem ++ extension) ≡ extension
    → same extension avro_extension ≡ false
    → file_name r url (stem ++ extension) ≡ stem ++ avro_extension
unfolding file_name compressed_name transcoded_name
file_name-avro r url stem extension t transcodes avro no_codec plain found ne =
    rw (plain, no_codec, found) (rw (transcodes, avro, ne) (rw (drop_end-append stem extension)))
