-- ===== src/SchemaReader/Fields.antt =====
-- config/field.go: the conversion of a field's value. A layout that is filled in at the first call is
-- the same at each later one.
use smirror.Prelude.{Bool, ◌&&◌, Bytes, Result, ok, err, is_empty, if◌then◌else◌}
use smirror.Text.Search.{codes, same, to_lower}
use smirror.Text.Parts.{trim_space}
use smirror.Config.Types.{Field}

-- Package `toolbox`: an `interface{}` value is a `V`, a time a `T`; `text` makes a value of a string.
pub record Toolbox (V T : Type 0) : Type 0 where
  pub text : Bytes → V
  pub as_string : V → Bytes
  pub to_time : V → Bytes → Result T
  pub format : T → Bytes → Bytes
  pub to_float : V → Result V
  pub to_int : V → Result V
  pub to_boolean : V → Result V
  pub date_format_to_layout : Bytes → Bytes

module _ {V T : Type 0} (toolbox : Toolbox V T) where
  unfoldable pub init_field : Field → Field
  init_field f = record f {
    source_date_layout =
        if is_empty f.source_date_layout
        then (if is_empty f.source_date_format
            then f.source_date_layout
            else toolbox.date_format_to_layout f.source_date_format)
        else f.source_date_layout;
    target_date_layout =
        if is_empty f.target_date_layout
        then (if is_empty f.target_date_format
            then f.target_date_layout
            else toolbox.date_format_to_layout f.target_date_format)
        else f.target_date_layout;
  }

  abbrev is_type : Field → Bytes → Bool
  is_type f name = same (to_lower f.data_type) name

  -- the time in the target's layout, where either layout stands in for a missing one
  unfoldable pub reformat : Field → V → Result Bytes
  reformat f value =
      let source : Bytes =
        if is_empty f.source_date_layout then f.target_date_layout else f.source_date_layout in
      elim (toolbox.to_time value source) [
        | err e ↦ err e
        | ok time ↦ ok (
            toolbox.format time
              (if is_empty f.target_date_layout then source else f.target_date_layout))
      ]

  -- neither layout is given
  abbrev has_no_layout : Field → Bool
  has_no_layout f = is_empty f.source_date_layout && is_empty f.target_date_layout

  abbrev as_value : Result Bytes → Result V
  as_value (ok text) = ok (toolbox.text text)
  as_value (err e) = err e

  abbrev as_text : Result V → Result Bytes
  as_text (ok value) = ok (toolbox.as_string value)
  as_text (err e) = err e

  unfoldable pub adjust_value : Field → V → Result V
  adjust_value f value =
      if is_type f (codes "time")
      then (if has_no_layout f then ok value else as_value (reformat f value))
      else (if is_type f (codes "float")
          then toolbox.to_float value
          else (if is_type f (codes "int")
              then toolbox.to_int value
              else (if is_type f (codes "boolean") then toolbox.to_boolean value else ok value)))

  unfoldable pub adjust_text : Field → Bytes → Result Bytes
  adjust_text f value =
      let trimmed : V = toolbox.text (trim_space value) in
      if is_type f (codes "time")
      then (if has_no_layout f then ok (trim_space value) else reformat f trimmed)
      else (if is_type f (codes "float")
          then as_text (toolbox.to_float trimmed)
          else (if is_type f (codes "int")
              then as_text (toolbox.to_int trimmed)
              else (if is_type f (codes "boolean")
                  then as_text (toolbox.to_boolean trimmed)
                  else ok value)))
