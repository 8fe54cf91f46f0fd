-- ===== src/Record/Schema.antt =====
-- src/record/schema.h and schema.cpp: the names of the fields in their order, and the type and
-- the length of each. Both are an `int`; a length may be negative: nothing checks it.
pub mod Adds
use simpledb.Prelude.{Bool, true, false, List, [], ◌∷◌, ◌++◌, Option, none, some}
use simpledb.Prelude.Bytes.{◌>>=◌}
use simpledb.Prelude.Int.{ℤ, pos}
use simpledb.Prelude.Text.{Text}
use simpledb.Record.Map.{StringHashMap, find, emplace}

-- `enum Type { INTEGER, VARCHAR }`, whose values are stored as numbers.
abbrev pub integer : ℤ
integer = pos 0

abbrev pub varchar : ℤ
varchar = pos 1

pub record FieldInfo : Type 0 where
  pub type : ℤ
  pub length : ℤ

pub record Schema : Type 0 where
  pub fields : List Text
  pub info : StringHashMap FieldInfo

abbrev pub empty : Schema
empty = record { fields = []; info = [] }

unfoldable pub add_field : Text → ℤ → ℤ → Schema → Schema
unfolding emplace
add_field field_name type length s = record {
  fields = s.fields ++ field_name ∷ [];
  info = emplace field_name (record { type = type; length = length }) s.info;
}

unfoldable pub add_int_field : Text → Schema → Schema
unfolding add_field
add_int_field field_name s = add_field field_name integer (pos 0) s

unfoldable pub add_string_field : Text → ℤ → Schema → Schema
unfolding add_field
add_string_field field_name length s = add_field field_name varchar length s

-- `GetFieldInfo`, with `none` for the exception.
unfoldable pub get_field_info : Text → Schema → Option FieldInfo
unfolding find
get_field_info field_name s = find field_name s.info

unfoldable pub field_type : Text → Schema → Option ℤ
unfolding get_field_info
field_type field_name s = do info ← get_field_info field_name s; some info.type

unfoldable pub field_length : Text → Schema → Option ℤ
unfolding get_field_info
field_length field_name s = do info ← get_field_info field_name s; some info.length

unfoldable pub has_field : Text → Schema → Bool
unfolding find
has_field field_name s = elim (find field_name s.info) [ none ↦ false | some _ ↦ true ]

-- `Add`: the field as the schema `other` has it.
unfoldable pub add : Text → Schema → Schema → Option Schema
unfolding add_field field_type field_length
add field_name other s = do
  type ← field_type field_name other
  length ← field_length field_name other
  some (add_field field_name type length s)

-- The loop of `AddAll` over the names of the other schema.
unfoldable pub add_each : List Text → Schema → Schema → Option Schema
unfolding add
add_each [] other s = some s
add_each (field_name ∷ names) other s = do s' ← add field_name other s; add_each names other s'

unfoldable pub add_all : Schema → Schema → Option Schema
unfolding add_each
add_all other s = add_each other.fields other s
