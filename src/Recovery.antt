-- ===== src/Recovery.antt =====
-- src/txn/recovery: the log records, as values and as bytes. `ToString` is not modelled.
pub mod RoundTrip
pub mod Undo
use simpledb.Prelude.{
  ℕ, ◌+◌, Bool, true, false, List, [], ◌∷◌, Option, none, some, if◌then◌else◌, length, ◌*◌,
}
use simpledb.Prelude.Bytes.{Bytes, ◌>>=◌}
use simpledb.Prelude.Int.{ℤ, pos, negsuc, int_eq}
use simpledb.File.Block.{FileName, BlockId}
use simpledb.File.Manager.{FileManager}
use simpledb.File.Page
use simpledb.File.Page.{Page, int_size, get_int, set_int, get_string, set_string, string_length}
use simpledb.Log
use simpledb.Log.{LogManager, offset_of}

-- The six classes of records; what a change holds is the value before it.
pub data LogRecord : Type 0 where
  checkpoint : LogRecord
  start : ℤ → LogRecord
  commit : ℤ → LogRecord
  rollback : ℤ → LogRecord
  set_int_record : ℤ → BlockId → ℤ → ℤ → LogRecord
  set_string_record : ℤ → BlockId → ℤ → Bytes → LogRecord

-- `TxnId`
unfoldable pub txn_of : LogRecord → ℤ
txn_of checkpoint = negsuc 0
txn_of (start t) = t
txn_of (commit t) = t
txn_of (rollback t) = t
txn_of (set_int_record t _ _ _) = t
txn_of (set_string_record t _ _ _) = t

-- `LogType`, as the number that is stored.
abbrev pub checkpoint_type : ℤ
checkpoint_type = pos 0

abbrev pub start_type : ℤ
start_type = pos 1

abbrev pub commit_type : ℤ
commit_type = pos 2

abbrev pub rollback_type : ℤ
rollback_type = pos 3

abbrev pub set_int_type : ℤ
set_int_type = pos 4

abbrev pub set_string_type : ℤ
set_string_type = pos 5

unfoldable pub checkpoint_bytes : Option Bytes
checkpoint_bytes = set_int (Page.make int_size) 0 checkpoint_type

-- A record of a type and a transaction.
unfoldable pub txn_bytes : ℤ → ℤ → Option Bytes
txn_bytes type txn_id = do
  page ← set_int (Page.make (2 * int_size)) 0 type
  set_int page int_size txn_id

-- The fields that the two kinds of changes share, on a page of the record's size.
unfoldable pub change_header : ℤ → ℤ → BlockId → ℤ → Page → Option Page
change_header type txn_id block offset page = do
  let txn_pos = int_size
  let file_pos = txn_pos + int_size
  let block_pos = file_pos + string_length block.filename
  let offset_pos = block_pos + int_size
  p1 ← set_int page 0 type
  p2 ← set_int p1 txn_pos txn_id
  p3 ← set_string p2 file_pos block.filename
  p4 ← set_int p3 block_pos block.block_num
  set_int p4 offset_pos offset

-- Where the old value stands.
abbrev pub val_pos : BlockId → ℕ
val_pos block = int_size + int_size + string_length block.filename + int_size + int_size

unfoldable pub set_int_bytes : ℤ → BlockId → ℤ → ℤ → Option Bytes
unfolding change_header
set_int_bytes txn_id block offset val = do
  page ← change_header set_int_type txn_id block offset (Page.make (val_pos block + int_size))
  set_int page (val_pos block) val

unfoldable pub set_string_bytes : ℤ → BlockId → ℤ → Bytes → Option Bytes
unfolding change_header
set_string_bytes txn_id block offset val = do
  page ←
      change_header set_string_type txn_id block offset
        (Page.make (val_pos block + string_length val))
  set_string page (val_pos block) val

unfoldable pub record_bytes : LogRecord → Option Bytes
unfolding checkpoint_bytes txn_bytes set_int_bytes set_string_bytes
record_bytes checkpoint = checkpoint_bytes
record_bytes (start t) = txn_bytes start_type t
record_bytes (commit t) = txn_bytes commit_type t
record_bytes (rollback t) = txn_bytes rollback_type t
record_bytes (set_int_record t block offset val) = set_int_bytes t block offset val
record_bytes (set_string_record t block offset val) = set_string_bytes t block offset val

-- `WriteToLog`
unfoldable pub write_to_log :
    LogRecord → FileManager → LogManager → Option (FileManager × LogManager × ℕ)
write_to_log r fm l = do bytes ← record_bytes r; Log.append bytes fm l

-- What the two kinds of changes read alike: the transaction, the block, the offset and where the
-- value stands.
pub record Change : Type 0 where
  pub txn_id : ℤ
  pub block : BlockId
  pub offset : ℤ
  pub value_at : ℕ

unfoldable pub read_change : Page → Option Change
read_change page = do
  let txn_pos = int_size
  let file_pos = txn_pos + int_size
  filename ← get_string page file_pos
  let block_pos = file_pos + string_length filename
  let offset_pos = block_pos + int_size
  txn_id ← get_int page txn_pos
  block_num ← get_int page block_pos
  offset ← get_int page offset_pos
  some (record {
    txn_id = txn_id;
    block = record { filename = filename; block_num = block_num };
    offset = offset;
    value_at = offset_pos + int_size;
  })

unfoldable pub read_set_int : Page → Option LogRecord
unfolding read_change
read_set_int page = do
  c ← read_change page
  val ← get_int page c.value_at
  some (set_int_record c.txn_id c.block c.offset val)

unfoldable pub read_set_string : Page → Option LogRecord
unfolding read_change
read_set_string page = do
  c ← read_change page
  val ← get_string page c.value_at
  some (set_string_record c.txn_id c.block c.offset val)

unfoldable pub read_txn : (ℤ → LogRecord) → Page → Option LogRecord
read_txn kind page = do txn_id ← get_int page int_size; some (kind txn_id)

-- The `switch` of `CreateLogRecord`; `none` is the null pointer too.
unfoldable pub create_of_type : ℤ → Page → Option LogRecord
unfolding read_txn read_set_int read_set_string int_eq
create_of_type type page =
    if int_eq type checkpoint_type
    then some checkpoint
    else if int_eq type start_type
    then read_txn start page
    else if int_eq type commit_type
    then read_txn commit page
    else if int_eq type rollback_type
    then read_txn rollback page
    else if int_eq type set_int_type
    then read_set_int page
    else if int_eq type set_string_type
    then read_set_string page
    else none

unfoldable pub create_log_record : Bytes → Option LogRecord
unfolding create_of_type
create_log_record bytes = do type ← get_int bytes 0; create_of_type type bytes
