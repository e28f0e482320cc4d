-- ===== src/Text/Search.antt =====
-- Go's `==`, `HasPrefix`, `HasSuffix`, `Contains`, `Count`, `Index`, `Replace`, `ToLower`, `ToUpper`.
use Prim.Native.Char.{code}
use Prim.Native.String.{String}
use mathlib.Core.List.{reverse}
use smirror.Prelude.{
  ℕ, zero, suc, ◌+◌, ◌-◌, [], ◌∷◌, ◌++◌, map, Bool, true, false, ◌&&◌, ◌||◌, Option, none, some,
  ◌≡◌, refl, ◌↔◌, arith, ◌==◌, leb, if◌then◌else◌, Bytes, length,
}

-- The bytes of an ASCII literal.
abbrev pub codes : String → Bytes
codes String.[] = []
codes (String.◌∷◌ c s) = code c ∷ codes s

unfoldable pub same : Bytes → Bytes → Bool
same [] [] = true
same [] (y ∷ ys) = false
same (x ∷ xs) [] = false
same (x ∷ xs) (y ∷ ys) = x == y && same xs ys

pub same→eq : (s t : Bytes) → same s t ≡ true → s ≡ t
unfolding same
same→eq [] [] h = refl
same→eq [] (y ∷ ys) h = ground arith
same→eq (x ∷ xs) [] h = ground arith
same→eq (x ∷ xs) (y ∷ ys) h = ground (arith, same→eq xs ys)

pub same_self : (s : Bytes) → same s s ≡ true
unfolding same
same_self [] = refl
same_self (x ∷ xs) = ground (arith, same_self xs)

pub same_iff : (s t : Bytes) → (same s t ≡ true) ↔ (s ≡ t)
same_iff s t = (same→eq s t, λ e. ground (arith, e, same_self s))

unfoldable pub has_prefix : Bytes → Bytes → Bool
has_prefix s [] = true
has_prefix [] (y ∷ ys) = false
has_prefix (x ∷ xs) (y ∷ ys) = x == y && has_prefix xs ys

unfoldable pub has_suffix : Bytes → Bytes → Bool
unfolding has_prefix reverse
has_suffix s suffix = has_prefix (reverse s) (reverse suffix)

unfoldable pub contains : Bytes → Bytes → Bool
unfolding has_prefix
contains [] part = has_prefix [] part
contains (c ∷ s) part = has_prefix (c ∷ s) part || contains s part

has_prefix-append : (s rest : Bytes) → has_prefix (s ++ rest) s ≡ true
unfolding has_prefix
has_prefix-append [] rest = refl
has_prefix-append (x ∷ xs) rest = ground (arith, has_prefix-append xs rest)

-- A text contains each of its parts.
pub contains-append : (front part rest : Bytes) → contains (front ++ (part ++ rest)) part ≡ true
unfolding contains
contains-append [] [] [] = unfold has_prefix in refl
contains-append [] [] (r ∷ rest) = unfold has_prefix in refl
contains-append [] (p ∷ part) rest = ground (arith, has_prefix-append (p ∷ part) rest)
contains-append (x ∷ front) part rest = ground (arith, contains-append front part rest)

-- What stands in front of a text does not hide its parts.
pub contains-append_left :
    (front s part : Bytes) → contains s part ≡ true → contains (front ++ s) part ≡ true
unfolding contains
contains-append_left [] s part h = h
contains-append_left (x ∷ front) s part h = ground (arith, contains-append_left front s part h)

-- `strings.Index`; `none` is -1.
unfoldable pub index : Bytes → Bytes → Option ℕ
unfolding has_prefix
index [] part = if has_prefix [] part then some 0 else none
index (c ∷ s) part =
    let later = index s part in
    if has_prefix (c ∷ s) part then some 0 else elim later [ none ↦ none | some i ↦ some (suc i) ]

-- The copies of a nonempty `part`, from the left; `skip` bytes still belong to the last one.
count_from : Bytes → ℕ → Bytes → ℕ
unfolding has_prefix
count_from part skip [] = 0
count_from part (suc skip) (c ∷ s) = count_from part skip s
count_from part zero (c ∷ s) = elim (has_prefix (c ∷ s) part) [
  | true ↦ suc (count_from part (length part - 1) s)
  | false ↦ count_from part zero s
]

-- `strings.Count`: an empty part is counted before each byte and at the end.
unfoldable pub count : Bytes → Bytes → ℕ
unfolding count_from
count s [] = suc (length s)
count s (p ∷ part) = count_from (p ∷ part) 0 s

replace_from : Bytes → Bytes → ℕ → ℕ → Bytes → Bytes
unfolding has_prefix
replace_from old new n skip [] = []
replace_from old new n (suc skip) (c ∷ s) = replace_from old new n skip s
replace_from old new zero zero (c ∷ s) = c ∷ s
replace_from old new (suc n) zero (c ∷ s) = elim (has_prefix (c ∷ s) old) [
  | true ↦ new ++ replace_from old new n (length old - 1) s
  | false ↦ c ∷ replace_from old new (suc n) zero s
]

-- With nothing to look for, `new` goes before each byte and to the end.
insert_each : Bytes → ℕ → Bytes → Bytes
insert_each new zero s = s
insert_each new (suc n) [] = new
insert_each new (suc n) (c ∷ s) = new ++ c ∷ insert_each new n s

-- `strings.Replace(s, old, new, n)` for n ≥ 0.
unfoldable pub replace : Bytes → Bytes → Bytes → ℕ → Bytes
unfolding replace_from insert_each
replace s [] new n = insert_each new n s
replace s (o ∷ old) new n = replace_from (o ∷ old) new n 0 s

unfoldable pub to_lower : Bytes → Bytes
to_lower = map (λ c. if leb b'A' c && leb c b'Z' then c + 32 else c)

unfoldable pub to_upper : Bytes → Bytes
to_upper = map (λ c. if leb b'a' c && leb c b'z' then c - 32 else c)

replaces_first : replace (codes "a$xb$x") (codes "$x") (codes "--") 1 ≡ codes "a--b$x"
unfolding replace
replaces_first = refl

finds : (index (codes "ab.c") (codes ".") ≡ some 2) × (count (codes "aaa") (codes "aa") ≡ 1)
unfolding index count
finds = (refl, refl)
