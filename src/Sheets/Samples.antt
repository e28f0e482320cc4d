-- ===== src/Sheets/Samples.antt =====
-- Examples on a small sheet: which row is its header, and a row that has no first cell.
use smirror.Prelude.{[], ◌∷◌, none, some, Bytes, ok, get_elem?, ◌≡◌, refl}
use smirror.Text.Search.{codes}
use smirror.Maps.{put}
use smirror.Sheets.{
  Cell, string_type, Field, Cells, less, count_cells, new_meta, is_entry, candidates, greatest,
  get_meta, decode_cell, decode_fields, next_record,
}
use smirror.Sheets.HeaderRow.{next_record-blank_first}

abbrev conversions : Cells Bytes
conversions = record {
  nil = [];
  get_cell = get_elem?;
  text = λ t. t;
  bool_of = λ c. [];
  float_of = λ c. ok c.value;
  int_of = λ c. ok c.value;
  time_of = λ c. ok c.value;
}

abbrev filled : Cell
filled = record { value = codes "x"; code = 1 }

abbrev blank : Cell
blank = record { value = []; code = 1 }

abbrev name_field : Field
name_field = record { name = codes "name"; type_name = string_type }

abbrev city_field : Field
city_field = record { name = codes "city"; type_name = string_type }

-- a title of one cell, a header of two, and a record of two
header_below_title :
    get_meta ((filled ∷ []) ∷ (filled ∷ filled ∷ []) ∷ (filled ∷ filled ∷ []) ∷ [])
    ≡ some (record { first_row = 1; index = 2; last_row = 2; cells = 2; non_empty_cells = 2 })
unfolding get_meta candidates is_entry new_meta count_cells greatest less
header_below_title = refl

second_cell_only :
    next_record conversions (name_field ∷ city_field ∷ []) ((blank ∷ filled ∷ []) ∷ []) []
    ≡ some ((put (codes "name") [] [], none), [])
unfolding next_record decode_fields decode_cell put
second_cell_only = refl

next_record-blank_first_example :
    next_record conversions
      (name_field ∷ city_field ∷ [])
      ((blank ∷ filled ∷ []) ∷ (filled ∷ filled ∷ []) ∷ [])
      []
    ≡ next_record conversions
        (name_field ∷ city_field ∷ [])
        ((filled ∷ filled ∷ []) ∷ [])
        (put (codes "name") [] [])
unfolding decode_cell
next_record-blank_first_example =
    next_record-blank_first conversions name_field (city_field ∷ []) (blank ∷ filled ∷ [])
      ((filled ∷ filled ∷ []) ∷ []) [] blank [] refl refl refl
