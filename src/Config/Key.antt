-- ===== src/Config/Key.antt =====
-- `Partition.Key` of config/split.go: the key of a line.
pub mod Range
pub mod Equality
pub mod Trimming
use mathlib.Core.List.{reverse}
use smirror.Prelude.{
  ℕ, zero, suc, ◌+◌, ◌-◌, ◌*◌, ◌%◌, ◌^◌, ℤ, pos, negsuc, rem, List, [], ◌∷◌, ◌++◌, Option, none,
  some, true, false, ◌==◌, ltb, leb, if◌then◌else◌, Bytes, Error, errorf, wrap, Result, ok, err,
  ◌>>=◌, length, get_elem?, is_empty, ◌≡◌, refl,
}
use smirror.Text.Search.{codes, same, to_lower}
use smirror.Text.Parts.{split, trim}
use smirror.Text.Decimal.{decimal}
use smirror.Config.Types.{Partition}

-- The `interface{}` values that serve as keys: texts, numbers, and the other JSON values, which
-- stand as their JSON text.
pub data Key : Type 0 where
  text : Bytes → Key
  number : ℤ → Key
  json : Bytes → Key

-- What the key takes from encoding/json, github.com/viant/toolbox and the hash packages.
pub record KeyLibrary : Type 0 where
  -- the named field of a JSON object, the empty text if it is absent, or the decoder's error
  pub json_field : Bytes → Bytes → Result Key
  pub as_int : Key → ℤ
  pub as_string : Key → Bytes
  pub murmur : Bytes → Bytes
  pub fnv : Bytes → Bytes
  pub md5 : Bytes → Bytes

-- The characters between the backquotes of the raw literal: a quote, a double quote, a backslash,
-- `n`, a backslash, `t` and a space.
abbrev pub cutset : Bytes
cutset = 39 ∷ 34 ∷ 92 ∷ b'n' ∷ 92 ∷ b't' ∷ 32 ∷ []

-- `if len(value) > 0 { value = strings.Trim(value, …) }`
unfoldable pub clean_value : Bytes → Bytes
unfolding trim
clean_value [] = []
clean_value (c ∷ value) = trim (c ∷ value) cutset

-- the provider for delimited text
unfoldable pub delimited_key : Partition → Bytes → Result Key
unfolding clean_value split
delimited_key p line =
    let elements = split line (if is_empty p.separator then codes "," else p.separator) in
    elim (get_elem? elements p.field_index) [
      | some value ↦ ok (text (clean_value value))
      | none ↦ err (
          errorf (
            codes "index out of bound, index: "
            ++ (decimal p.field_index
                ++ (codes ", len: " ++ (decimal (length elements) ++ (codes ", " ++ line))))))
    ]

-- `newKeyProvider`
unfoldable pub provided_key : KeyLibrary → Partition → Bytes → Result Key
unfolding delimited_key
provided_key lib p line = elim (is_empty p.field) [
  | true ↦ delimited_key p line
  | false ↦ elim (lib.json_field p.field line) [
    | ok key ↦ ok key
    | err e ↦ err (wrap (codes "failed to unmarshal JSON") e)
  ]
]

-- The loop of `bytesToInt` over the last 8 bytes, from the last one: the bytes do not overlap, so `|`
-- is a sum.
unfoldable pub word : ℕ → Bytes → ℕ
word zero bytes = 0
word (suc rounds) [] = 0
word (suc rounds) (v ∷ vs) = v + 256 * word rounds vs

-- the int64 of a bit pattern
unfoldable pub to_int64 : ℕ → ℤ
to_int64 w = if ltb w (2 ^ 63) then pos w else negsuc (2 ^ 64 - 1 - w)

-- `keyNumeric *= -1` on an int64: the least number is its own negation.
unfoldable pub negate : ℤ → ℤ
negate (pos zero) = pos 0
negate (pos (suc n)) = negsuc n
negate (negsuc n) = if n == 2 ^ 63 - 1 then negsuc n else pos (suc n)

-- `if keyNumeric < 0 { keyNumeric *= -1 }`
unfoldable pub absolute : ℤ → ℤ
unfolding negate
absolute (pos n) = pos n
absolute (negsuc n) = negate (negsuc n)

unfoldable pub bytes_to_int : Bytes → ℤ
unfolding word to_int64 absolute
bytes_to_int bytes = absolute (to_int64 (word 8 (reverse bytes)))

-- the hash that a name selects
unfoldable pub hash_of : KeyLibrary → Bytes → Result (Bytes → Bytes)
unfolding same to_lower
hash_of lib name =
    if same (to_lower name) (codes "murmur")
    then ok lib.murmur
    else if same (to_lower name) (codes "fnv")
    then ok lib.fnv
    else if same (to_lower name) (codes "md5")
    then ok lib.md5
    else err (errorf (codes "unsupported hash: " ++ name))

-- the number of a key: that of its hash if one is named
unfoldable pub key_number : KeyLibrary → Partition → Key → Result ℤ
unfolding hash_of bytes_to_int
key_number lib p key = elim (is_empty p.hash) [
  | true ↦ ok (lib.as_int key)
  | false ↦ hash_of lib p.hash >>= λ sum. ok (bytes_to_int (sum (lib.as_string key)))
]

unfoldable pub key_of : KeyLibrary → Partition → Bytes → Result Key
unfolding provided_key key_number
key_of lib p line = provided_key lib p line >>= λ key. elim (is_empty p.hash) [
  | true ↦ elim (p.modulus == 0) [
    | true ↦ ok key
    | false ↦ ok (number (rem (lib.as_int key) p.modulus))
  ]
  | false ↦
      key_number lib p key >>= λ n. ok (number (if p.modulus == 0 then n else rem n p.modulus))
]

-- a key as `%v` prints it
unfoldable pub key_text : Key → Bytes
key_text (text t) = t
key_text (number (pos n)) = decimal n
key_text (number (negsuc n)) = b'-' ∷ decimal (suc n)
key_text (json t) = t
