-- ===== src/Config/Compression.antt =====
-- config/compression.go, and `HasTransformer`, `HasSplit`, `SourceCompression` and `ShallArchiveWalk`
-- of config/rule.go.
use smirror.Prelude.{
  [], ◌∷◌, ◌++◌, Bool, true, false, not, ◌&&◌, ◌||◌, Option, none, some, ltb, if◌then◌else◌, Bytes,
  is_empty, ◌≡◌, ◌↔◌, ◌⊎◌, arith, inl, inr, Bool-cases, refl, sym,
}
use smirror.Text.Search.{codes, same, same_iff, has_suffix, replace}
use smirror.Text.Paths.{ext}
use smirror.Config.Types.{Compression, Rule, Split}

abbrev pub gzip_codec : Bytes
gzip_codec = codes "gzip"

abbrev pub gzip_extension : Bytes
gzip_extension = codes ".gz"

-- `x != nil`
abbrev pub is_set {ℓ} : {A : Type ℓ} → Option A → Bool
is_set none = false
is_set (some a) = true

unfoldable pub equals : Option Compression → Option Compression → Bool
equals none none = true
equals none (some d) = false
equals (some c) none = false
equals (some c) (some d) = same c.codec d.codec

unfoldable pub compression_for_url : Bytes → Option Compression
compression_for_url url =
    if has_suffix url gzip_extension
    then some (record { codec = gzip_codec; uncompress = false })
    else none

unfoldable pub has_transformer : Rule → Bool
has_transformer r = is_set r.schema || not (is_empty r.replace)

splits : Option Split → Bool
splits none = false
splits (some s) = ltb 0 s.max_size || ltb 0 s.max_lines || is_set s.partition

unfoldable pub has_split : Rule → Bool
unfolding splits
has_split r = splits r.split

-- `compression != nil && compression.Uncompress`
abbrev pub uncompresses : Option Compression → Bool
uncompresses none = false
uncompresses (some c) = c.uncompress

-- `compression != nil && compression.Codec != ""`
abbrev pub has_codec : Option Compression → Bool
has_codec none = false
has_codec (some c) = not (is_empty c.codec)

-- `source.Uncompress = compression.Uncompress`, where that is true
abbrev marked : Option Compression → Option Compression
marked none = none
marked (some c) = some (record c { uncompress = true })

unfoldable pub source_compression : Rule → Bytes → Option Compression
unfolding compression_for_url equals
source_compression r url =
    let source = compression_for_url url in
    let has_dest = has_codec r.compression && is_set source in
    if uncompresses r.compression
    then marked source
    else if (has_dest && equals source r.compression) || not has_dest
    then none
    else source

unfoldable pub shall_archive_walk : Rule → Bytes → Bool
shall_archive_walk r url = elim r.compression [
  | none ↦ false
  | some c ↦ (has_suffix url (codes ".tar") || has_suffix url (codes ".zip")) && c.uncompress
]

unfoldable pub archive_walk_url : Bytes → Bytes
archive_walk_url url =
    replace url (codes "://") (codes ":") 1
    ++ (b'/' ∷ (replace (ext url) (codes ".") [] 1 ++ codes "://localhost/"))

-- `Rule.Init` on the compression: a rule that splits or transforms reads uncompressed text.
unfoldable pub init_compression : Rule → Option Compression
init_compression r =
    if has_split r || has_transformer r
    then some (elim r.compression [
      | none ↦ record { codec = []; uncompress = true }
      | some c ↦ record c { uncompress = true }
    ])
    else r.compression

-- A compression through which a .gz source is read.
abbrev pub Reads : Compression → Type 0
Reads c = (c.uncompress ≡ true) ⊎ ((is_empty c.codec ≡ false) × ¬ (c.codec ≡ gzip_codec))

abbrev ReadsBy : Option Compression → Type 0
ReadsBy o =
    (uncompresses o ≡ true)
    ⊎ ((has_codec o ≡ true)
        × (equals (some (record { codec = gzip_codec; uncompress = false })) o ≡ false))

source_compression-ReadsBy :
    (r : Rule) (url : Bytes)
    → (is_set (source_compression r url) ≡ true)
      ↔ ((has_suffix url gzip_extension ≡ true) × ReadsBy r.compression)
unfolding source_compression
source_compression-ReadsBy r url = ground arith

made_by : (o : Option Compression) → ReadsBy o → (c : Compression) × (o ≡ some c) × Reads c
unfolding equals
made_by none h = ground arith
made_by (some c) (inl unpacks) = (c, refl, inl unpacks)
made_by (some c) (inr (coded, other)) = (
  c,
  refl,
  inr (ground (arith, coded), λ e. ground (arith, other, (same_iff gzip_codec c.codec).1 (sym e))),
)

made_from : (o : Option Compression) (c : Compression) → o ≡ some c → Reads c → ReadsBy o
unfolding equals
made_from o c e (inl unpacks) = inl (rw e unpacks)
made_from o c e (inr (coded, other)) = inr (
  rw e (ground (arith, coded)),
  rw e (elim (Bool-cases (same gzip_codec c.codec)) [
    | inl equal ↦ elim (other (sym ((same_iff gzip_codec c.codec).0 equal))) [ ]
    | inr differs ↦ differs
  ]),
)

-- A source is read through gzip exactly when its URL ends in .gz and the rule has a compression that
-- either uncompresses the sources, or has a codec other than gzip.
pub source_compression_iff :
    (r : Rule) (url : Bytes)
    → (is_set (source_compression r url) ≡ true) ↔ (
        (has_suffix url gzip_extension ≡ true)
        × ((c : Compression) × (r.compression ≡ some c) × Reads c))
source_compression_iff r url = (
  λ h.
      let (ends, reads) = (source_compression-ReadsBy r url).0 h in
      (ends, made_by r.compression reads),
  λ (ends, (c, e, reads)).
      (source_compression-ReadsBy r url).1 (ends, made_from r.compression c e reads),
)

-- After `Init`, a rule that splits or transforms reads each .gz source through gzip, whatever codec
-- it writes.
pub init-source_compression :
    (r : Rule) (url : Bytes)
    → (has_split r || has_transformer r) ≡ true
    → has_suffix url gzip_extension ≡ true
    → source_compression (record r { compression = init_compression r }) url
      ≡ some (record { codec = gzip_codec; uncompress = true })
unfolding source_compression init_compression
init-source_compression r url h g = ground arith
