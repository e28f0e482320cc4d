-- ===== src/Text/Parts.antt =====
-- Go's `strings.Split`, `Join` and `Trim`.
pub mod RoundTrip
use mathlib.Core.List.{reverse}
use smirror.Prelude.{
  ℕ, zero, suc, ◌-◌, List, [], ◌∷◌, ◌++◌, true, false, ◌≡◌, refl, ◌==◌, any, if◌then◌else◌, Bytes,
  length,
}
use smirror.Text.Search.{codes, has_prefix}

-- `part` is the current part so far, `skip` the bytes that still belong to a separator.
cut : Bytes → Bytes → ℕ → Bytes → List Bytes
unfolding has_prefix
cut sep part skip [] = part ∷ []
cut sep part (suc skip) (c ∷ s) = cut sep part skip s
cut sep part zero (c ∷ s) = elim (has_prefix (c ∷ s) sep) [
  | true ↦ part ∷ cut sep [] (length sep - 1) s
  | false ↦ cut sep (part ++ c ∷ []) zero s
]

-- One part for each byte.
explode : Bytes → List Bytes
explode [] = []
explode (c ∷ s) = (c ∷ []) ∷ explode s

unfoldable pub split : Bytes → Bytes → List Bytes
unfolding cut explode
split s [] = explode s
split s (c ∷ sep) = cut (c ∷ sep) [] 0 s

unfoldable pub join : List Bytes → Bytes → Bytes
join [] sep = []
join (p ∷ []) sep = p
join (p ∷ q ∷ ps) sep = p ++ (sep ++ join (q ∷ ps) sep)

unfoldable pub trim_left : Bytes → Bytes → Bytes
trim_left cutset [] = []
trim_left cutset (c ∷ s) =
    let rest = trim_left cutset s in if any (λ d. d == c) cutset then rest else c ∷ s

-- `strings.Trim(s, cutset)`.
unfoldable pub trim : Bytes → Bytes → Bytes
unfolding trim_left reverse
trim s cutset = reverse (trim_left cutset (reverse (trim_left cutset s)))

-- `strings.TrimSpace` on ASCII text.
unfoldable pub trim_space : Bytes → Bytes
unfolding trim
trim_space s = trim s (b' ' ∷ 9 ∷ 10 ∷ 11 ∷ 12 ∷ 13 ∷ [])

splits : split (codes "a/b//c") (codes "/") ≡ codes "a" ∷ codes "b" ∷ [] ∷ codes "c" ∷ []
unfolding split
splits = refl

trims : trim (codes "//a/b/") (codes "/") ≡ codes "a/b"
unfolding trim
trims = refl
