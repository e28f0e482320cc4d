-- ===== src/Sheets/HeaderRow.antt =====
-- Which row of a sheet is taken for the header, and which rows below it are left out: getMeta and NextRecord
-- of transcoder/xlsx/decoder.go.
use smirror.Prelude.{
  List, [], ◌∷◌, true, false, some, Bytes, ok, is_empty, ◌≡◌, refl, Bool-cases, inl, inr, arith,
}
use smirror.Maps.{put}
use smirror.Sheets.{
  Cell, Field, Cells, Meta, less, greatest, skipped, decode_cell, decode_fields, next_record,
}

-- A header that is not below one that beats a third is not below the third.
less-trans_false : (k m n : Meta) → less m n ≡ false → less m k ≡ true → less k n ≡ false
unfolding less
less-trans_false k m n h beats = ground arith

greatest-less : (m n : Meta) (ns : List Meta) → less m n ≡ false → less (greatest m ns) n ≡ false
unfolding greatest
greatest-less m n [] h = h
greatest-less m n (k ∷ ns) h = elim (Bool-cases (less m k)) [
  | inl greater ↦ rw greater (greatest-less k n ns (less-trans_false k m n h greater))
  | inr other ↦ rw other (greatest-less m n ns h)
]

module _ {V : Type 0} (conversions : Cells V) where
  decode_fields-blank_first :
      (f : Field) (fs : List Field) (row : List Cell) (entries : List (Bytes × V)) (c : Cell)
      (v : V)
      → conversions.get_cell row 0 ≡ some c
      → is_empty c.value ≡ true
      → decode_cell conversions f c ≡ some (ok v)
      → decode_fields conversions row 0 true (f ∷ fs) entries
        ≡ skipped (put f.name conversions.nil entries)
  unfolding decode_fields
  decode_fields-blank_first f fs row entries c v found blank value =
      rw (decode_fields, found, value, blank) refl

  next_record-skipped :
      (fields : List Field) (row : List Cell) (rows : List (List Cell))
      (entries cleared : List (Bytes × V))
      → decode_fields conversions row 0 true fields entries ≡ skipped cleared
      → next_record conversions fields (row ∷ rows) entries
        ≡ next_record conversions fields rows cleared
  unfolding next_record
  next_record-skipped fields row rows entries cleared h = rw (next_record, h) refl

  -- A row whose first cell is empty, and whose first field still makes a value of that cell, is left
  -- out whatever its other cells hold: the record is read from the rows below it, with the entry of the
  -- first field set to nil.
  pub next_record-blank_first :
      (f : Field) (fs : List Field) (row : List Cell) (rows : List (List Cell))
      (entries : List (Bytes × V)) (c : Cell) (v : V)
      → conversions.get_cell row 0 ≡ some c
      → is_empty c.value ≡ true
      → decode_cell conversions f c ≡ some (ok v)
      → next_record conversions (f ∷ fs) (row ∷ rows) entries
        ≡ next_record conversions (f ∷ fs) rows (put f.name conversions.nil entries)
  next_record-blank_first f fs row rows entries c v found blank value =
      next_record-skipped (f ∷ fs) row rows entries (put f.name conversions.nil entries)
        (decode_fields-blank_first f fs row entries c v found blank value)
