-- ===== src/Maps.antt =====
-- Go maps from a text, as lists of pairs.
use smirror.Prelude.{
  suc, ◌≤◌, List, [], ◌∷◌, false, Option, none, some, Bytes, length, ◌≡◌, refl, if◌then◌else◌,
  arith,
}
use smirror.Text.Search.{same, same_iff, same_self}

module _ {V : Type 0} where
  -- the map's value under a key
  unfoldable pub lookup : Bytes → List (Bytes × V) → Option V
  lookup key [] = none
  lookup key ((k, v) ∷ entries) = if same k key then some v else lookup key entries

  -- the map with a value under a key
  unfoldable pub put : Bytes → V → List (Bytes × V) → List (Bytes × V)
  put key value [] = (key, value) ∷ []
  put key value ((k, v) ∷ entries) =
      if same k key then (k, value) ∷ entries else (k, v) ∷ put key value entries

  pub length-put :
      (key : Bytes) (value : V) (entries : List (Bytes × V))
      → length (put key value entries) ≤ suc (length entries)
  unfolding put
  length-put key value [] = omega arith
  length-put key value ((k, v) ∷ entries) = ground (arith, length-put key value entries)

  pub lookup-put :
      (key : Bytes) (value : V) (entries : List (Bytes × V))
      → lookup key (put key value entries) ≡ some value
  unfolding lookup put
  lookup-put key value [] = rw same_self
  lookup-put key value ((k, v) ∷ entries) =
      ground (arith, same_self key, lookup-put key value entries)

  pub lookup-put_other :
      (other key : Bytes) (value : V) (entries : List (Bytes × V))
      → same key other ≡ false
      → lookup other (put key value entries) ≡ lookup other entries
  unfolding lookup put
  lookup-put_other other key value [] h = rw h
  lookup-put_other other key value ((k, v) ∷ entries) h = ground (
    arith,
    same_iff k key,
    same_iff k other,
    same_iff key other,
    lookup-put_other other key value entries,
  )

  pub length-put_new :
      (key : Bytes) (value : V) (entries : List (Bytes × V))
      → lookup key entries ≡ none
      → length (put key value entries) ≡ suc (length entries)
  unfolding lookup put
  length-put_new key value [] h = refl
  length-put_new key value ((k, v) ∷ entries) h = ground (arith, length-put_new key value entries)
