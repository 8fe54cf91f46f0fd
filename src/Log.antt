-- ===== src/Log.antt =====
-- src/log: the log manager and the iterator over its records. `none` is a fault: an access
-- outside of the log page, or an error of the file manager. The log sequence numbers are
-- counted without a bound.
pub mod Records
pub mod Append
pub mod Iterate
pub mod Restart
use simpledb.Prelude.{
  ℕ, true, false, zero, suc, ◌+◌, ◌-◌, Bool, Option, none, some, ltb, leb, ◌==◌, if◌then◌else◌,
  ◌||◌, length, [], ◌∷◌, List,
}
use simpledb.Prelude.Bytes.{Bytes, ◌>>=◌}
use simpledb.Prelude.Int.{ℤ, pos, negsuc, ◌+ℤ◌, ◌-ℤ◌, ltb_ℤ, int_eq}
use simpledb.File.Block.{FileName, BlockId}
use simpledb.File.Manager
use simpledb.File.Manager.{FileManager}
use simpledb.File.Page
use simpledb.File.Page.{Page, int_size, get_int, set_int, get_bytes, set_bytes}

pub record LogManager : Type 0 where
  pub log_file : FileName
  pub log_page : Page
  pub current_block : BlockId
  pub latest_lsn : ℕ
  pub last_saved_lsn : ℕ

-- `Flush()`
unfoldable pub flush : FileManager → LogManager → Option (FileManager × LogManager)
flush fm l = do
  fm' ← Manager.write fm l.current_block l.log_page
  some (fm', record l { last_saved_lsn = l.latest_lsn })

-- `Flush(int lsn)`
unfoldable pub flush_to : ℤ → FileManager → LogManager → Option (FileManager × LogManager)
unfolding flush
flush_to lsn fm l = if ltb_ℤ (pos l.last_saved_lsn) lsn then flush fm l else some (fm, l)

-- `AppendNewBlock()`: the block is handed to the caller, and the page is changed in place.
unfoldable pub append_new_block :
    FileManager → LogManager → Option (FileManager × LogManager × BlockId)
append_new_block fm l = do
  let (fm', block) = Manager.append fm l.log_file
  page ← set_int l.log_page 0 (pos fm'.block_size)
  fm'' ← Manager.write fm' block page
  some (fm'', record l { log_page = page }, block)

started : FileManager → FileName → LogManager → ℕ → Option (FileManager × LogManager)
started fm log_file l zero = do
  (fm', l', block) ← append_new_block fm l
  some (fm', record l' { current_block = block })
started fm log_file l (suc last) = do
  let block : BlockId = record { filename = log_file; block_num = pos last }
  (fm', page) ← Manager.read fm block (length l.log_page)
  some (fm', record l { current_block = block; log_page = page })

-- The constructor.
unfoldable pub init : FileManager → FileName → Option (FileManager × LogManager)
unfolding started append_new_block
init fm log_file = do
  let (fm', log_size) = Manager.file_length fm log_file
  let l : LogManager = record {
    log_file = log_file;
    log_page = Page.make fm'.block_size;
    current_block = record { filename = []; block_num = pos 0 };
    latest_lsn = 0;
    last_saved_lsn = 0;
  }
  started fm' log_file l log_size

-- An access at an offset below zero is a fault.
abbrev pub offset_of : ℤ → Option ℕ
offset_of (pos n) = some n
offset_of (negsuc n) = none

-- The branch of `Append` for a record that does not fit, with the new boundary.
unfoldable pub make_room : FileManager → LogManager → Option (FileManager × LogManager × ℤ)
make_room fm l = do
  (fm1, l1) ← flush fm l
  (fm2, l2, block) ← append_new_block fm1 l1
  boundary ← get_int l2.log_page 0
  some (fm2, record l2 { current_block = block }, boundary)

-- The rest of `Append`: the record stands left of the boundary, which moves there.
unfoldable pub place : Bytes → FileManager → LogManager → ℤ → Option (FileManager × LogManager × ℕ)
place log_record fm l boundary = do
  let record_pos = boundary -ℤ pos (length log_record + int_size)
  offset ← offset_of record_pos
  page ← set_bytes l.log_page offset log_record
  page' ← set_int page 0 record_pos
  some (fm, record l { log_page = page'; latest_lsn = l.latest_lsn + 1 }, l.latest_lsn + 1)

unfoldable pub append : Bytes → FileManager → LogManager → Option (FileManager × LogManager × ℕ)
append log_record fm l = do
  boundary ← get_int l.log_page 0
  let too_long = ltb_ℤ (boundary -ℤ pos (length log_record + int_size)) (pos int_size)
  (fm', l', boundary') ← if too_long then make_room fm l else some (fm, l, boundary)
  place log_record fm' l' boundary'

pub record LogIterator : Type 0 where
  pub block : BlockId
  pub page : Page
  pub current_pos : ℤ

-- `MoveToBlock`
unfoldable pub move_to_block :
    FileManager → LogIterator → BlockId → Option (FileManager × LogIterator)
move_to_block fm it block = do
  (fm', page) ← Manager.read fm block (length it.page)
  current_pos ← get_int page 0
  some (fm', record it { page = page; current_pos = current_pos })

-- The constructor.
unfoldable pub start : FileManager → BlockId → Option (FileManager × LogIterator)
start fm block =
    move_to_block fm (record { block = block; page = Page.make fm.block_size; current_pos = pos 0 })
      block

unfoldable pub has_next : FileManager → LogIterator → Bool
has_next fm it = ltb_ℤ it.current_pos (pos fm.block_size) || ltb_ℤ (pos 0) it.block.block_num

previous : BlockId → BlockId
previous b = record b { block_num = b.block_num -ℤ pos 1 }

-- The `if` of `Next`.
unfoldable pub turn : FileManager → LogIterator → Option (FileManager × LogIterator)
unfolding previous
turn fm it =
    if int_eq it.current_pos (pos fm.block_size)
    then move_to_block fm (record it { block = previous it.block }) (previous it.block)
    else some (fm, it)

unfoldable pub next : FileManager → LogIterator → Option (FileManager × LogIterator × Bytes)
next fm it = do
  (fm', it') ← turn fm it
  offset ← offset_of it'.current_pos
  log_record ← get_bytes it'.page offset
  some (
    fm',
    record it' { current_pos = it'.current_pos +ℤ pos (int_size + length log_record) },
    log_record,
  )

-- `Iterator()`
unfoldable pub iterator : FileManager → LogManager → Option (FileManager × LogManager × LogIterator)
iterator fm l = do
  (fm', l') ← flush fm l
  (fm'', it) ← start fm' l'.current_block
  some (fm'', l', it)

-- The loop of the iterator's clients, `while (iter.HasNext()) { ... iter.Next() ... }`, on fuel:
-- the records in the order in which they come.
unfoldable pub read_all : ℕ → FileManager → LogIterator → Option (List Bytes)
read_all zero fm it = none
read_all (suc fuel) fm it = elim (has_next fm it) [
  | false ↦ some []
  | true ↦ do
    (fm', it', log_record) ← next fm it
    rest ← read_all fuel fm' it'
    some (log_record ∷ rest)
]
