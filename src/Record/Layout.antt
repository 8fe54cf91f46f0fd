-- ===== src/Record/Layout.antt =====
-- src/record/layout.h and layout.cpp: where the fields stand in a record, behind a flag of four
-- bytes. Offsets are an `int` in the source; that they stay inside of its range is assumed.
pub mod Bounds
use simpledb.Prelude.{if◌then◌else◌, List, [], ◌∷◌, Option, none, some}
use simpledb.Prelude.Bytes.{◌>>=◌}
use simpledb.Prelude.Int.{ℤ, pos, ◌+ℤ◌, int_eq}
use simpledb.Prelude.Text.{Text}
use simpledb.File.Page.{int_size}
use simpledb.Record.Map.{StringHashMap, find, emplace}
use simpledb.Record.Schema.{Schema, integer, field_type, field_length}

pub record Layout : Type 0 where
  pub schema : Schema
  pub offsets : StringHashMap ℤ
  pub slot_size : ℤ

-- `GetOffset`, with `none` for the exception.
unfoldable pub get_offset : Text → Layout → Option ℤ
unfolding find
get_offset field_name l = find field_name l.offsets

unfoldable pub length_in_bytes : Text → Schema → Option ℤ
unfolding field_type field_length ◌+ℤ◌ int_eq
length_in_bytes field_name s = do
  t ← field_type field_name s
  if int_eq t integer
      then some (pos int_size)
      else (field_length field_name s >>= λ n. some (n +ℤ pos int_size))

-- The loop of `CreateLayout`, with the offsets and the position so far.
unfoldable pub place_fields :
    Schema → List Text → StringHashMap ℤ → ℤ → Option (StringHashMap ℤ × ℤ)
unfolding emplace length_in_bytes ◌+ℤ◌
place_fields s [] offsets position = some (offsets, position)
place_fields s (field_name ∷ names) offsets position = do
  n ← length_in_bytes field_name s
  place_fields s names (emplace field_name position offsets) (position +ℤ n)

-- `Layout(Schema)` with `CreateLayout`.
unfoldable pub create_layout : Schema → Option Layout
unfolding place_fields
create_layout s = do
  (offsets, position) ← place_fields s s.fields [] (pos int_size)
  some (record { schema = s; offsets = offsets; slot_size = position })
