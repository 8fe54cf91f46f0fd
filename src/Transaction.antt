-- ===== src/Transaction.antt =====
-- src/txn/transaction.cpp: what `SetInt` and `SetString` do to the buffer of their block, with the log
-- record that the functions of these names of `RecoveryManager` write before, and `Undo` of the log records. The lock on the block and
-- the look-up of the buffer in front of them are not modelled here.
pub mod BufferList
pub mod Restore
pub mod Logged
pub mod Rollback
use simpledb.Prelude.{[], ◌∷◌, ℕ, Bool, true, false, List, Option, none, some}
use simpledb.Prelude.Bytes.{Bytes, ◌>>=◌}
use simpledb.Prelude.Int.{ℤ, pos, negsuc}
use simpledb.File.Manager.{FileManager}
use simpledb.File.Page.{get_int, set_int, get_string, set_string}
use simpledb.Log.{LogManager}
use simpledb.Buffer
use simpledb.Buffer.{Buffer}
use simpledb.Recovery.{
  LogRecord, checkpoint, start, commit, rollback, set_int_record, set_string_record, write_to_log,
}

-- `RecoveryManager::SetInt`: the record with the old value, and its sequence number.
unfoldable pub log_old_int :
    ℤ → ℕ → FileManager → LogManager → Buffer → Option (FileManager × LogManager × ℤ)
unfolding write_to_log
log_old_int txn_id offset fm l b = do
  old_val ← get_int b.contents offset
  block ← b.block
  (fm', l', lsn) ← write_to_log (set_int_record txn_id block (pos offset) old_val) fm l
  some (fm', l', pos lsn)

-- The sequence number of `SetInt`, -1 when the change is not logged.
unfoldable pub log_if :
    Bool → ℤ → ℕ → FileManager → LogManager → Buffer → Option (FileManager × LogManager × ℤ)
unfolding log_old_int
log_if true txn_id offset fm l b = log_old_int txn_id offset fm l b
log_if false txn_id offset fm l b = some (fm, l, negsuc 0)

-- `SetInt`, behind the lock and the look-up of the buffer.
unfoldable pub write_int :
    ℤ
    → ℕ
    → ℤ
    → Bool
    → FileManager
    → LogManager
    → Buffer
    → Option (FileManager × LogManager × Buffer)
unfolding log_if Buffer.set_modified
write_int txn_id offset val ok_to_log fm l b = do
  (fm', l', lsn) ← log_if ok_to_log txn_id offset fm l b
  contents ← set_int b.contents offset val
  some (fm', l', Buffer.set_modified txn_id lsn (record b { contents = contents }))

-- `RecoveryManager::SetString`.
unfoldable pub log_old_string :
    ℤ → ℕ → FileManager → LogManager → Buffer → Option (FileManager × LogManager × ℤ)
unfolding write_to_log
log_old_string txn_id offset fm l b = do
  old_val ← get_string b.contents offset
  block ← b.block
  (fm', l', lsn) ← write_to_log (set_string_record txn_id block (pos offset) old_val) fm l
  some (fm', l', pos lsn)

-- The sequence number of `SetString`, -1 when the change is not logged.
unfoldable pub log_string_if :
    Bool → ℤ → ℕ → FileManager → LogManager → Buffer → Option (FileManager × LogManager × ℤ)
unfolding log_old_string
log_string_if true txn_id offset fm l b = log_old_string txn_id offset fm l b
log_string_if false txn_id offset fm l b = some (fm, l, negsuc 0)

-- `SetString`, behind the lock and the look-up of the buffer.
unfoldable pub write_string :
    ℤ
    → ℕ
    → Bytes
    → Bool
    → FileManager
    → LogManager
    → Buffer
    → Option (FileManager × LogManager × Buffer)
unfolding log_string_if Buffer.set_modified
write_string txn_id offset val ok_to_log fm l b = do
  (fm', l', lsn) ← log_string_if ok_to_log txn_id offset fm l b
  contents ← set_string b.contents offset val
  some (fm', l', Buffer.set_modified txn_id lsn (record b { contents = contents }))

-- `SetIntRecord::Undo`, with the offset and the old value of the record.
unfoldable pub undo_int :
    ℤ → ℕ → ℤ → FileManager → LogManager → Buffer → Option (FileManager × LogManager × Buffer)
unfolding write_int
undo_int txn_id offset val fm l b = write_int txn_id offset val false fm l b

-- `SetStringRecord::Undo`, in the same way; it is not logged.
unfoldable pub undo_string :
    ℤ → ℕ → Bytes → FileManager → LogManager → Buffer → Option (FileManager × LogManager × Buffer)
unfolding write_string
undo_string txn_id offset val fm l b = write_string txn_id offset val false fm l b

-- `Undo`, for a transaction, on the buffer of the record's block.
unfoldable pub undo_record :
    ℤ → LogRecord → FileManager → LogManager → Buffer → Option (FileManager × LogManager × Buffer)
unfolding undo_int undo_string
undo_record txn_id checkpoint fm l b = some (fm, l, b)
undo_record txn_id (start _) fm l b = some (fm, l, b)
undo_record txn_id (commit _) fm l b = some (fm, l, b)
undo_record txn_id (rollback _) fm l b = some (fm, l, b)
undo_record txn_id (set_int_record _ _ (pos offset) val) fm l b = undo_int txn_id offset val fm l b
undo_record txn_id (set_int_record _ _ (negsuc _) val) fm l b = none
undo_record txn_id (set_string_record _ _ (pos offset) val) fm l b =
    undo_string txn_id offset val fm l b
undo_record txn_id (set_string_record _ _ (negsuc _) val) fm l b = none

-- The calls of `Undo` that a rollback makes, when all are about one block.
unfoldable pub undo_records :
    ℤ
    → List LogRecord
    → FileManager
    → LogManager
    → Buffer
    → Option (FileManager × LogManager × Buffer)
unfolding undo_record
undo_records txn_id [] fm l b = some (fm, l, b)
undo_records txn_id (r ∷ records) fm l b = do
  (fm1, l1, b1) ← undo_record txn_id r fm l b
  undo_records txn_id records fm1 l1 b1
