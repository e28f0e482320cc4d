-- ===== src/Sheets.antt =====
-- transcoder/xlsx/decoder.go with meta.go: the header row of a sheet and the records below it.
pub mod HeaderRow
pub mod Samples
use smirror.Prelude.{
  ℕ, zero, suc, ◌+◌, ◌-◌, List, [], ◌∷◌, ◌++◌, Bool, true, false, ◌&&◌, ◌||◌, not, Option, none,
  some, ltb, leb, ◌==◌, Bytes, Error, errorf, wrap, Result, ok, err, is_empty, length, any, select,
  if◌then◌else◌,
}
use smirror.Text.Search.{codes}
use smirror.Maps.{put}

pub record Cell : Type 0 where
  pub value : Bytes
  pub code : ℕ

-- the types of schma that a field may have
pub data FieldType : Type 0 where
  boolean_type float_type long_type string_type timestamp_type : FieldType

pub record Field : Type 0 where
  pub name : Bytes
  pub type_name : FieldType

-- The conversions of a cell of the package xlsx; `V` are the values, with nil among them.
pub record Cells (V : Type 0) : Type 0 where
  pub nil : V
  -- `GetCell` of a row
  pub get_cell : List Cell → ℕ → Option Cell
  pub text : Bytes → V
  pub bool_of : Cell → V
  pub float_of : Cell → Result V
  pub int_of : Cell → Result V
  -- the milliseconds of `GetTime`
  pub time_of : Cell → Result V

-- meta.go
pub record Meta : Type 0 where
  pub first_row : ℕ
  pub index : ℕ
  pub last_row : ℕ
  pub cells : ℕ
  pub non_empty_cells : ℕ

unfoldable pub has_more : Meta → Bool
has_more m = leb m.index m.last_row

-- `metaSlice.Less`
unfoldable pub less : Meta → Meta → Bool
less a b =
    if a.cells == b.cells then ltb a.non_empty_cells b.non_empty_cells else ltb a.cells b.cells

unfoldable pub count_cells : List Cell → ℕ
count_cells row = length (select (λ c. not (is_empty c.value)) row)

unfoldable pub new_meta : ℕ → List Cell → Meta
new_meta i row = record {
  first_row = i;
  index = 0;
  last_row = 0;
  cells = length row;
  non_empty_cells = count_cells row;
}

-- whether a row adds an entry to those of the rows above it
unfoldable pub is_entry : List Meta → List Cell → Bool
is_entry found row =
    not (count_cells row == 0) && not (any (λ m. m.non_empty_cells == count_cells row) found)

-- The loop over the rows: the first row for each number of cells that are not empty.
unfoldable pub candidates : ℕ → List (List Cell) → List Meta → List Meta
candidates i [] found = found
candidates i (row ∷ rows) found =
    let rest = candidates (suc i) rows in
    if is_entry found row then rest (found ++ new_meta i row ∷ []) else rest found

-- The last of the sorted entries, of which no two are equal: the greatest one.
unfoldable pub greatest : Meta → List Meta → Meta
greatest m [] = m
greatest m (n ∷ ns) = let rest = λ (k : Meta). greatest k ns in if less m n then rest n else rest m

-- `getMeta`; without a row that has a cell it panics
unfoldable pub get_meta : List (List Cell) → Option Meta
get_meta rows = elim (candidates 0 rows []) [
  | [] ↦ none
  | m ∷ ms ↦
      some (record (greatest m ms) {
        last_row = length rows - 1;
        index = suc (greatest m ms).first_row;
      })
]

module _ {V : Type 0} (conversions : Cells V) where
  -- What a field makes of its cell: nothing for an empty number, a value, or an error.
  unfoldable pub decode_cell : Field → Cell → Option (Result V)
  decode_cell f c = elim f.type_name [
    | boolean_type ↦ some (ok (conversions.bool_of c))
    | float_type ↦ if is_empty c.value then none else some (conversions.float_of c)
    | long_type ↦ if is_empty c.value then none else some (conversions.int_of c)
    | string_type ↦ some (ok (conversions.text c.value))
    | timestamp_type ↦
        some (elim (conversions.time_of c) [ ok t ↦ ok t | err e ↦ ok conversions.nil ])
  ]

  -- What the fields make of a row: it is left at the first cell that is decoded while all so far were
  -- empty, it fails, it panics for want of a cell, or it gives the record.
  pub data Decoded : Type 0 where
    skipped : List (Bytes × V) → Decoded
    failed : Error → List (Bytes × V) → Decoded
    panicked : Decoded
    decoded : List (Bytes × V) → Decoded

  abbrev pub decode_value :
      Field
      → Cell
      → Bool
      → Option (Result V)
      → List (Bytes × V)
      → (List (Bytes × V) → Decoded)
      → Decoded
  decode_value f c blank none entries rest = rest entries
  decode_value f c blank (some (err e)) entries rest =
      failed (wrap (codes "failed decode " ++ f.name ++ codes " " ++ c.value) e) entries
  decode_value f c blank (some (ok v)) entries rest =
      if blank then skipped entries else rest (put f.name v entries)

  -- the loop over the fields, the number of the cell and whether all cells so far were empty
  unfoldable pub decode_fields : List Cell → ℕ → Bool → List Field → List (Bytes × V) → Decoded
  decode_fields row i blank [] entries = decoded entries
  decode_fields row i blank (f ∷ fs) entries =
      let cleared : List (Bytes × V) = put f.name conversions.nil entries in
      let rest = λ (b : Bool). decode_fields row (suc i) b fs in
      elim (conversions.get_cell row i) [
        | none ↦ panicked
        | some c ↦
            let still : Bool = blank && is_empty c.value in
            decode_value f c still (decode_cell f c) cleared (rest still)
      ]

  -- `NextRecord` on the rows that are left: what the record holds, the error, and the rows left after it
  unfoldable pub next_record :
      List Field
      → List (List Cell)
      → List (Bytes × V)
      → Option ((List (Bytes × V) × Option Error) × List (List Cell))
  next_record fields [] entries = some ((entries, none), [])
  next_record fields (row ∷ rows) entries =
      let again = next_record fields rows in
      elim (decode_fields row 0 true fields entries) [
        | skipped cleared ↦ again cleared
        | failed e partial ↦ some ((partial, some e), rows)
        | panicked ↦ none
        | decoded filled ↦ some ((filled, none), rows)
      ]
