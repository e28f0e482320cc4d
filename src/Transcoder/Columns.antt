-- ===== src/Transcoder/Columns.antt =====
-- A map that is filled again with the same columns has the values of the last row alone.
use smirror.Prelude.{
  List, [], ◌∷◌, ◌++◌, append_assoc, append-nil, false, Bytes, length, All, All-append, ◌≡◌, refl,
  sym, ap, ◌∙◌, arith,
}
use smirror.Text.Search.{same, same_self}
use smirror.Maps.{put}
use smirror.Transcoder.{put_fields}

-- Names of which no two are the same.
abbrev pub IsDistinct : List Bytes → Type 0
IsDistinct [] = Unit
IsDistinct (f ∷ fs) = All (λ g. same f g ≡ false) fs × IsDistinct fs

module _ {V : Type 0} where
  -- No entry has the key.
  abbrev IsFresh : List (Bytes × V) → Bytes → Type 0
  IsFresh entries key = All (λ e. same e.0 key ≡ false) entries

  put-fresh :
      (key : Bytes) (value : V) (entries : List (Bytes × V))
      → IsFresh entries key
      → put key value entries ≡ entries ++ (key, value) ∷ []
  unfolding put
  put-fresh key value [] h = refl
  put-fresh key value ((k, v) ∷ entries) (other, h) =
      rw other (ap (λ (es : List (Bytes × V)). (k, v) ∷ es) (put-fresh key value entries h))

  put-behind :
      (key : Bytes) (value old : V) (front rest : List (Bytes × V))
      → IsFresh front key
      → put key value (front ++ (key, old) ∷ rest) ≡ front ++ (key, value) ∷ rest
  unfolding put
  put-behind key value old [] rest h = rw same_self refl
  put-behind key value old ((k, v) ∷ front) rest (other, h) =
      rw other (ap (λ (es : List (Bytes × V)). (k, v) ∷ es) (put-behind key value old front rest h))

  -- The next columns are fresh behind one more entry.
  IsFresh-more :
      (f : Bytes) (value : V) (fs : List Bytes) (front : List (Bytes × V))
      → All (λ g. same f g ≡ false) fs
      → All (IsFresh front) fs
      → All (IsFresh (front ++ (f, value) ∷ [])) fs
  IsFresh-more f value [] front d h = tt
  IsFresh-more f value (g ∷ fs) front (other, d) (fresh, h) = (
    All-append (λ e. same e.0 g ≡ false) front ((f, value) ∷ []) fresh (other, tt),
    IsFresh-more f value fs front d h,
  )

  module _ (text : Bytes → V) where
    -- the row of values under their columns
    abbrev pub row : List Bytes → List Bytes → List (Bytes × V)
    row [] values = []
    row (f ∷ fs) [] = []
    row (f ∷ fs) (v ∷ vs) = (f, text v) ∷ row fs vs

    put_fields-fresh :
        (fs vs : List Bytes) (front : List (Bytes × V))
        → IsDistinct fs
        → All (IsFresh front) fs
        → put_fields text fs vs front ≡ front ++ row fs vs
    unfolding put_fields
    put_fields-fresh [] vs front d h = sym (append-nil front)
    put_fields-fresh (f ∷ fs) [] front d h = sym (append-nil front)
    put_fields-fresh (f ∷ fs) (v ∷ vs) front (others, d) (fresh, h) =
        ap (put_fields text fs vs) (put-fresh f (text v) front fresh)
        ∙ (put_fields-fresh fs vs (front ++ (f, text v) ∷ []) d
              (IsFresh-more f (text v) fs front others h)
            ∙ append_assoc front ((f, text v) ∷ []) (row fs vs))

    put_fields-again :
        (fs vs old : List Bytes) (front : List (Bytes × V))
        → length vs ≡ length fs
        → length old ≡ length fs
        → IsDistinct fs
        → All (IsFresh front) fs
        → put_fields text fs vs (front ++ row fs old) ≡ front ++ row fs vs
    unfolding put_fields
    put_fields-again [] vs old front e k d h = refl
    put_fields-again (f ∷ fs) [] old front e k d h = ground (arith, e)
    put_fields-again (f ∷ fs) (v ∷ vs) [] front e k d h = ground (arith, k)
    put_fields-again (f ∷ fs) (v ∷ vs) (o ∷ old) front e k (others, d) (fresh, h) =
        ap (put_fields text fs vs) (
          put-behind f (text v) (text o) front (row fs old) fresh
          ∙ sym (append_assoc front ((f, text v) ∷ []) (row fs old)))
        ∙ (put_fields-again fs vs old (front ++ (f, text v) ∷ []) (omega (arith, e))
              (omega (arith, k)) d (IsFresh-more f (text v) fs front others h)
            ∙ append_assoc front ((f, text v) ∷ []) (row fs vs))

    at_first : (fs : List Bytes) → All (IsFresh []) fs
    at_first [] = tt
    at_first (f ∷ fs) = (tt, at_first fs)

    -- A row that is put into an empty map, or over another row, is the row.
    pub put_fields-row : (fs vs : List Bytes) → IsDistinct fs → put_fields text fs vs [] ≡ row fs vs
    put_fields-row fs vs d = put_fields-fresh fs vs [] d (at_first fs)

    pub put_fields-row_again :
        (fs vs old : List Bytes)
        → length vs ≡ length fs
        → length old ≡ length fs
        → IsDistinct fs
        → put_fields text fs vs (row fs old) ≡ row fs vs
    put_fields-row_again fs vs old e k d = put_fields-again fs vs old [] e k d (at_first fs)
