-- ===== src/Record/Page.antt =====
-- src/record/record_page.h and record_page.cpp: the records of one block. What is read, and what
-- `Format` writes without a log record, is on the page `p` of the buffer of the block; the logged
-- changes are on the buffer, for the transaction `txn_id`, with the files and the log. The lock on
-- the block and the look-up of its buffer are not modelled here.
pub mod Positions
pub mod Frame
pub mod Fields
pub mod Slots
pub mod Flags
pub mod Insert
pub mod Format
use simpledb.Prelude.{
  ℕ, zero, suc, true, if◌then◌else◌, Bool, List, [], ◌∷◌, Option, none, some, length,
}
use simpledb.Prelude.Bytes.{Bytes, ◌>>=◌}
use simpledb.Prelude.Int.{ℤ, pos, negsuc, int_eq, times, leb_ℤ, ◌+ℤ◌}
use simpledb.Prelude.Text.{Text}
use simpledb.File.Manager.{FileManager}
use simpledb.File.Page
use simpledb.File.Page.{Page}
use simpledb.Log.{LogManager, offset_of}
use simpledb.Buffer.{Buffer}
use simpledb.Transaction.{write_int, write_string}
use simpledb.Record.Schema.{integer, field_type}
use simpledb.Record.Layout.{Layout, get_offset}

-- `enum Flag { EMPTY, USED }`
abbrev pub empty : ℤ
empty = pos 0

abbrev pub used : ℤ
used = pos 1

-- `Offset`. An offset below zero is outside of the block: an access there is a fault.
unfoldable pub offset : Layout → ℕ → ℤ
unfolding times
offset l slot = times slot l.slot_size

-- `IsValidSlot`; the block has the size of the page.
unfoldable pub is_valid_slot : Layout → Page → ℕ → Bool
unfolding offset
is_valid_slot l p slot = leb_ℤ (offset l (suc slot)) (pos (length p))

-- `Offset(slot) + layout_.GetOffset(field_name)`
unfoldable pub field_pos : Layout → ℕ → Text → Option ℕ
unfolding offset ◌+ℤ◌
field_pos l slot field_name = do o ← get_offset field_name l; offset_of (offset l slot +ℤ o)

unfoldable pub get_int : Layout → ℕ → Text → Page → Option ℤ
unfolding field_pos
get_int l slot field_name p = do o ← field_pos l slot field_name; Page.get_int p o

unfoldable pub get_string : Layout → ℕ → Text → Page → Option Bytes
unfolding field_pos
get_string l slot field_name p = do o ← field_pos l slot field_name; Page.get_string p o

-- `SetInt` on the buffer of the block, for the transaction `txn_id`: the old value is read and
-- logged before.
unfoldable pub set_int :
    Layout
    → ℕ
    → Text
    → ℤ
    → ℤ
    → FileManager
    → LogManager
    → Buffer
    → Option (FileManager × LogManager × Buffer)
unfolding field_pos write_int
set_int l slot field_name val txn_id fm log b = do
  o ← field_pos l slot field_name
  write_int txn_id o val true fm log b

-- `SetString`, in the same way.
unfoldable pub set_string :
    Layout
    → ℕ
    → Text
    → Bytes
    → ℤ
    → FileManager
    → LogManager
    → Buffer
    → Option (FileManager × LogManager × Buffer)
unfolding field_pos write_string
set_string l slot field_name val txn_id fm log b = do
  o ← field_pos l slot field_name
  write_string txn_id o val true fm log b

unfoldable pub get_flag : Layout → ℕ → Page → Option ℤ
unfolding offset
get_flag l slot p = do o ← offset_of (offset l slot); Page.get_int p o

-- `SetFlag`, which is logged.
unfoldable pub set_flag :
    Layout
    → ℕ
    → ℤ
    → ℤ
    → FileManager
    → LogManager
    → Buffer
    → Option (FileManager × LogManager × Buffer)
unfolding offset write_int
set_flag l slot flag txn_id fm log b = do
  o ← offset_of (offset l slot)
  write_int txn_id o flag true fm log b

unfoldable pub delete :
    Layout → ℕ → ℤ → FileManager → LogManager → Buffer → Option (FileManager × LogManager × Buffer)
unfolding set_flag
delete l slot txn_id fm log b = set_flag l slot empty txn_id fm log b

-- What `Format` does to the flag of a slot, which is not logged.
unfoldable pub clear_flag : Layout → ℕ → Page → Option Page
unfolding offset
clear_flag l slot p = do o ← offset_of (offset l slot); Page.set_int p o empty

-- The value that `Format` gives to a field.
unfoldable pub format_field : Layout → ℕ → Text → Page → Option Page
unfolding field_pos int_eq
format_field l slot field_name p = do
  o ← field_pos l slot field_name
  t ← field_type field_name l.schema
  if int_eq t integer then Page.set_int p o (pos 0) else Page.set_string p o []

unfoldable pub format_fields : Layout → ℕ → List Text → Page → Option Page
unfolding format_field
format_fields l slot [] p = some p
format_fields l slot (field_name ∷ names) p = do
  p' ← format_field l slot field_name p
  format_fields l slot names p'

-- One round of the loop of `Format`.
unfoldable pub format_slot : Layout → ℕ → Page → Option Page
unfolding clear_flag format_fields
format_slot l slot p = do p' ← clear_flag l slot p; format_fields l slot l.schema.fields p'

-- The loop of `Format`; `none` when the fuel runs out.
unfoldable pub format_from : ℕ → Layout → ℕ → Page → Option Page
unfolding is_valid_slot format_slot
format_from zero l slot p = none
format_from (suc fuel) l slot p =
    let rest = format_slot l slot p >>= λ p'. format_from fuel l (suc slot) p' in
    if is_valid_slot l p slot then rest else some p

-- When the slots take a byte at least, this is enough: a valid slot ends inside of the block. In a
-- layout whose slots take none, the loops of the source do not end either.
abbrev pub rounds : Page → ℕ
rounds p = suc (length p)

unfoldable pub format : Layout → Page → Option Page
unfolding format_from
format l p = format_from (rounds p) l 0 p

-- The loop of `SearchAfter`.
unfoldable pub search_from : ℕ → Layout → ℕ → ℤ → Page → Option ℤ
unfolding is_valid_slot get_flag
search_from zero l slot flag p = none
search_from (suc fuel) l slot flag p =
    let rest = search_from fuel l (suc slot) flag p in
    let here = get_flag l slot p >>= λ v. if int_eq v flag then some (pos slot) else rest in
    if is_valid_slot l p slot then here else some (negsuc 0)

-- `SearchAfter`: -1 is the slot before the first. A smaller one makes the source read before
-- the block.
unfoldable pub search_after : Layout → ℤ → ℤ → Page → Option ℤ
unfolding search_from
search_after l (pos slot) flag p = search_from (rounds p) l (suc slot) flag p
search_after l (negsuc zero) flag p = search_from (rounds p) l 0 flag p
search_after l (negsuc (suc n)) flag p = none

unfoldable pub next_after : Layout → ℤ → Page → Option ℤ
unfolding search_after
next_after l slot p = search_after l slot used p

-- The `if` of `InsertAfter`.
unfoldable pub mark_used :
    Layout
    → ℤ
    → ℤ
    → FileManager
    → LogManager
    → Buffer
    → Option (ℤ × FileManager × LogManager × Buffer)
unfolding set_flag
mark_used l (pos slot) txn_id fm log b = do
  (fm', log', b') ← set_flag l slot used txn_id fm log b
  some (pos slot, fm', log', b')
mark_used l (negsuc n) txn_id fm log b = some (negsuc n, fm, log, b)

unfoldable pub insert_after :
    Layout
    → ℤ
    → ℤ
    → FileManager
    → LogManager
    → Buffer
    → Option (ℤ × FileManager × LogManager × Buffer)
unfolding search_after mark_used
insert_after l slot txn_id fm log b = do
  new_slot ← search_after l slot empty b.contents
  mark_used l new_slot txn_id fm log b
