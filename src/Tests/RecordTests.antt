-- ===== src/Tests/RecordTests.antt =====
-- A table with a number and a text of up to five characters, in a block of 40 bytes: two slots.
use simpledb.Prelude.{
  ℕ, ◌≡◌, refl, Option, if◌then◌else◌, ◌++◌, List, [], ◌∷◌, some, none, true, false, arith,
  Bool-cases, inl, inr, replicate, length,
}
use simpledb.Prelude.Bytes.{Bytes, read_at, write_at}
use simpledb.Prelude.Int.{ℤ, pos, negsuc, int_eq}
use simpledb.Prelude.Text.{Text, codes, text_eq, text_mem}
use simpledb.File.Block.{BlockId}
use simpledb.File.Manager
use simpledb.File.Manager.{FileManager, get_file}
use simpledb.File.Manager.Blocks.{block_at}
use simpledb.File.Page
use simpledb.File.Page.{Page, make, int_size, encode_int, decode_int}
use simpledb.Log.{LogManager, append}
use simpledb.Buffer.{Buffer}
use simpledb.Log.Records.{LogHolds}
use simpledb.Recovery.{record_bytes, write_to_log}
use simpledb.Record.Map.{find, emplace}
use simpledb.Record.Schema
use simpledb.Record.Schema.{Schema, add_all, add_field}
use simpledb.Record.Schema.Adds.{Add, run, int_field, string_field, add_all-some}
use simpledb.Record.Layout.{Layout, create_layout, get_offset, length_in_bytes}
use simpledb.Record.Layout.Bounds.{IsSized, IsPacked, create_layout-IsPacked, create_layout-some}
use simpledb.Record.Page.{
  is_valid_slot, get_flag, get_int, get_string, set_string, format, search_from, insert_after,
  next_after, empty, used,
}
use simpledb.Record.Page.Fields.{KeepsOthers, set_string_lem}
use simpledb.Record.Page.Slots.{Answers, slot_before, next_after-Answers, search_from-endless}
use simpledb.Record.Page.Insert.{Inserts, insert_after-Inserts}
use simpledb.Record.Page.Format.{format_lem}

abbrev adds : List Add
adds = int_field (codes "id") ∷ string_field (codes "nm") (pos 5) ∷ []

abbrev table : Schema
table = record {
  fields = codes "id" ∷ codes "nm" ∷ [];
  info =
      (codes "nm", record { type = pos 1; length = pos 5 })
      ∷ (codes "id", record { type = pos 0; length = pos 0 })
      ∷ [];
}

abbrev layout : Layout
layout = record {
  schema = table;
  offsets = (codes "nm", pos 8) ∷ (codes "id", pos 4) ∷ [];
  slot_size = pos 17;
}

program : Unit {0}
unfolding find emplace text_eq Schema.add_int_field Schema.add_string_field create_layout run
    get_int get_string format insert_after next_after encode_int decode_int get_offset
    Page.set_bytes simpledb.Record.Schema.Adds.apply length_in_bytes read_at write_at Page.get_int
    Page.set_int Page.get_string Page.set_string Page.get_bytes int_eq Schema.field_type
    is_valid_slot
program = tt

table_lem : run adds Schema.empty ≡ some table
unfolding program
table_lem = refl

layout_lem : create_layout table ≡ some layout
unfolding program
layout_lem = refl

table-IsSized : IsSized table
unfolding Schema.get_field_info find
table-IsSized f i e = elim (Bool-cases (text_eq f (codes "nm"))) [
  | inl name ↦ (5, ground arith)
  | inr other ↦ elim (Bool-cases (text_eq f (codes "id"))) [
    | inl id ↦ (0, ground arith)
    | inr another ↦ absurd (ground arith)
  ]
]

create_layout-IsPacked_example :
    (size : ℕ) × (layout.slot_size ≡ pos size) × IsPacked table layout.offsets size
create_layout-IsPacked_example = create_layout-IsPacked table table-IsSized layout_lem

create_layout-some_example :
    (l : Layout) × (create_layout table ≡ some l)
    × ((f : Text) → text_mem f table.fields ≡ true → (o : ℤ) × (get_offset f l ≡ some o))
create_layout-some_example = create_layout-some adds table table_lem

add_all-some_example :
    (s : Schema) × (add_all table table ≡ some s) × (s.fields ≡ table.fields ++ table.fields)
add_all-some_example = add_all-some adds table table table_lem

abbrev block : Page
block = replicate 40 7

format_lem_example :
    (q : Page) × (format layout block ≡ some q)
    × (length q ≡ length block)
    × ((j : ℕ) → is_valid_slot layout block j ≡ true → get_flag layout j q ≡ some empty)
    × ((j : ℕ) (f : Text)
        → is_valid_slot layout block j ≡ true
        → text_mem f table.fields ≡ true
        → (get_int layout j f q ≡ some (pos 0)) × (get_string layout j f q ≡ some []))
format_lem_example = format_lem layout table-IsSized layout_lem block

format_test :
    format layout block ≡ some (replicate 12 0 ++ replicate 5 7 ++ replicate 12 0 ++ replicate 11 7)
unfolding program
format_test = refl

next_after-Answers_example :
    (r : ℤ) × (next_after layout (slot_before 1) (make 40) ≡ some r)
    × Answers layout (make 40) 1 used r
next_after-Answers_example = next_after-Answers layout table-IsSized layout_lem 1 (make 40)

-- A schema with a text of -8 characters, whose slots have no bytes.
abbrev flat_table : Schema
flat_table = record {
  fields = codes "nm" ∷ [];
  info = (codes "nm", record { type = pos 1; length = negsuc 7 }) ∷ [];
}

abbrev flat_layout : Layout
flat_layout = record { schema = flat_table; offsets = (codes "nm", pos 4) ∷ []; slot_size = pos 0 }

flat_table_lem : run (string_field (codes "nm") (negsuc 7) ∷ []) Schema.empty ≡ some flat_table
unfolding program
flat_table_lem = refl

flat_layout_lem : create_layout flat_table ≡ some flat_layout
unfolding program
flat_layout_lem = refl

search_from-endless_example : search_from 1000 flat_layout 0 used (make 40) ≡ none
search_from-endless_example =
    search_from-endless 1000 0 flat_layout used empty (make 40) refl (unfold program in refl)
      (unfold program in (cc))

-- A block of 48 zero bytes, for transaction 5, and an empty log of one block.
abbrev block_id : BlockId
block_id = block_at (codes "t") 0

abbrev buffer : Buffer
buffer = record {
  contents = make 48;
  block = some block_id;
  pin_count = pos 1;
  txn_id = negsuc 0;
  lsn = negsuc 0;
}

abbrev log_page : Page
log_page = 48 ∷ replicate 47 0

abbrev disk : FileManager
disk = record {
  files = λ f. if text_eq (codes "log") f then some log_page else none;
  block_size = 48;
  is_new = false;
}

abbrev log : LogManager
log = record {
  log_file = codes "log";
  log_page = log_page;
  current_block = block_at (codes "log") 0;
  latest_lsn = 0;
  last_saved_lsn = 0;
}

log-LogHolds : LogHolds disk log []
unfolding program mathlib.Core.List.flatten get_file Manager.read
log-LogHolds = record {
  current = [];
  older = [];
  all = refl;
  sized = record { bytes = log_page; there = refl; sized = refl; positive = omega arith };
  block = refl;
  page = record {
    boundary = 48;
    is_size = refl;
    stored = refl;
    lower = omega arith;
    upper = omega arith;
    chunk = refl;
  };
  below = tt;
  small = omega arith;
}

insert_after-Inserts_example :
    (r : ℤ) × (fm' : FileManager) × (log' : LogManager) × (b' : Buffer) × (insert_after layout
        (slot_before 0)
        (pos 5)
        disk
        log
        buffer
      ≡ some (r, fm', log', b'))
    × Inserts layout 0 (pos 5) log [] buffer block_id r fm' log' b'
insert_after-Inserts_example =
    insert_after-Inserts layout table-IsSized layout_lem 0 (pos 5) disk log [] buffer block_id
      log-LogHolds refl (omega arith)

contents_of : Option (ℤ × FileManager × LogManager × Buffer) → Option (ℤ × Page)
contents_of none = none
contents_of (some (r, _, _, b)) = some (r, b.contents)

insert_test :
    contents_of (insert_after layout (negsuc 0) (pos 5) disk log buffer)
    ≡ some (pos 0, 1 ∷ replicate 47 0)
unfolding program contents_of write_to_log append record_bytes simpledb.Prelude.Int.◌-ℤ◌
    simpledb.Log.place
insert_test = refl

full_test :
    contents_of (
      insert_after layout
        (pos 0)
        (pos 5)
        disk
        log
        (record buffer { contents = replicate 17 0 ++ 1 ∷ replicate 22 0 }))
    ≡ some (negsuc 0, replicate 17 0 ++ 1 ∷ replicate 22 0)
unfolding program contents_of
full_test = refl

-- The log record of the empty string at position 25 of the block.
abbrev old_string : Bytes
old_string =
    5 ∷ replicate 3 0
    ++ (5 ∷ replicate 3 0 ++ (1 ∷ replicate 3 0 ++ (116 ∷ replicate 4 0 ++ (25 ∷ replicate 7 0))))

set_string_lem_example :
    (fm' : FileManager) × (log' : LogManager) × (q : Page) × (set_string layout 1
        (codes "nm")
        (codes "ab")
        (pos 5)
        disk
        log
        buffer
      ≡ some (fm', log', record buffer { contents = q; txn_id = pos 5; lsn = pos 1 }))
    × (get_string layout 1 (codes "nm") q ≡ some (codes "ab"))
    × KeepsOthers layout 1 (codes "nm") (make 48) q
    × LogHolds fm' log' (old_string ∷ [])
set_string_lem_example =
    set_string_lem layout table-IsSized layout_lem (pos 5) disk log [] buffer block_id log-LogHolds
      refl 1 (codes "nm") {o = 8} {n = 9} (unfold program in refl) (unfold program in refl)
      (unfold program in refl) (codes "ab") [] old_string (omega arith) (omega arith)
      (unfold program in refl) (unfold program record_bytes in refl) (omega arith)
