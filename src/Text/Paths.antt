-- ===== src/Text/Paths.antt =====
-- Go's package `path`.
use mathlib.Core.List.{reverse}
use smirror.Prelude.{
  List, [], ◌∷◌, ◌++◌, Bool, true, false, ◌||◌, ◌&&◌, not, ◌≡◌, refl, ◌==◌, if◌then◌else◌, Bytes,
  is_empty,
}
use smirror.Text.Search.{codes, same}
use smirror.Text.Parts.{join as join_parts, split as split_parts}

-- `path.Split`: the directory keeps its slash.
split_from : Bytes → Bytes → Bytes → Bytes × Bytes
split_from dir name [] = (dir, name)
split_from dir name (c ∷ s) = elim (c == b'/') [
  | true ↦ split_from (dir ++ (name ++ c ∷ [])) [] s
  | false ↦ split_from dir (name ++ c ∷ []) s
]

unfoldable pub split_path : Bytes → Bytes × Bytes
unfolding split_from
split_path s = split_from [] [] s

-- `ext` holds what stands behind the last dot of the last element, that dot included.
ext_from : Bool → Bytes → Bytes → Bytes
ext_from dotted found [] = found
ext_from dotted found (c ∷ s) = elim (c == b'/') [
  | true ↦ ext_from false [] s
  | false ↦ elim (c == b'.') [
    | true ↦ ext_from true (c ∷ []) s
    | false ↦ elim dotted [ true ↦ ext_from true (found ++ c ∷ []) s | false ↦ ext_from false [] s ]
  ]
]

-- `path.Ext`.
unfoldable pub ext : Bytes → Bytes
unfolding ext_from
ext s = ext_from false [] s

-- `path.Clean` on the elements of a path; `done` is reversed.
clean_parts : Bool → List Bytes → List Bytes → List Bytes
clean_parts rooted done [] = reverse done
clean_parts rooted [] (p ∷ ps) =
    clean_parts rooted
      (if is_empty p || same p (codes ".") || (rooted && same p (codes "..")) then [] else p ∷ [])
      ps
clean_parts rooted (d ∷ done) (p ∷ ps) =
    clean_parts rooted
      (if is_empty p || same p (codes ".")
        then d ∷ done
        else if same p (codes "..") && not (same d (codes ".."))
        then done
        else p ∷ d ∷ done)
      ps

unfoldable pub clean : Bytes → Bytes
unfolding clean_parts same reverse
clean [] = codes "."
clean (c ∷ s) =
    let rooted = c == b'/' in
    let body = join_parts (clean_parts rooted [] (split_parts (c ∷ s) (codes "/"))) (codes "/") in
    if rooted then b'/' ∷ body else if is_empty body then codes "." else body

-- `path.Join` of two elements: empty ones are left out.
unfoldable pub join_path : Bytes → Bytes → Bytes
unfolding clean join_parts split_parts
join_path [] [] = []
join_path [] (d ∷ b) = clean (d ∷ b)
join_path (c ∷ a) [] = clean (c ∷ a)
join_path (c ∷ a) (d ∷ b) = clean ((c ∷ a) ++ (b'/' ∷ d ∷ b))

parts :
    (split_path (codes "/a/b.gz") ≡ (codes "/a/", codes "b.gz"))
    × (ext (codes "/a.x/b.tar.gz") ≡ codes ".gz")
unfolding split_path ext
parts = (refl, refl)

joins : join_path (codes "a//b/") (codes "../c.txt") ≡ codes "a/c.txt"
unfolding join_path
joins = refl
