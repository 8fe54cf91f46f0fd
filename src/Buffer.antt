-- ===== src/Buffer.antt =====
-- src/buffer/buffer.h and buffer.cpp. The page, the file manager and the log manager that a buffer
-- refers to are arguments and results. `none` is a call that does not return: a block number
-- below zero, or a modified buffer without a block.
pub mod Manager
pub mod Pool
pub mod Invariant
pub mod Pins
pub mod WriteAhead
use simpledb.Prelude.{ℕ, ◌≡◌, Bool, true, false, not, Option, none, some, if◌then◌else◌, length}
use simpledb.Prelude.Bytes.{◌>>=◌}
use simpledb.Prelude.Int.{ℤ, pos, negsuc, ltb_ℤ, ◌+ℤ◌, ◌-ℤ◌}
use simpledb.File.Block.{BlockId}
use simpledb.File.Manager as Files
use simpledb.File.Manager.{FileManager}
use simpledb.File.Page
use simpledb.File.Page.{Page}
use simpledb.Log
use simpledb.Log.{LogManager}

pub record Buffer : Type 0 where
  pub contents : Page
  pub block : Option BlockId
  pub pin_count : ℤ
  pub txn_id : ℤ
  pub lsn : ℤ

-- The constructor.
unfoldable pub init : FileManager → Buffer
init fm = record {
  contents = Page.make fm.block_size;
  block = none;
  pin_count = pos 0;
  txn_id = negsuc 0;
  lsn = negsuc 0;
}

abbrev pub is_negative : ℤ → Bool
is_negative z = ltb_ℤ z (pos 0)

unfoldable pub set_modified : ℤ → ℤ → Buffer → Buffer
set_modified txn_id lsn b = record b {
  txn_id = txn_id;
  lsn = if is_negative lsn then b.lsn else lsn;
}

abbrev pub is_pinned : Buffer → Bool
is_pinned b = ltb_ℤ (pos 0) b.pin_count

-- `Flush`: the log first, then the block.
unfoldable pub flush :
    FileManager → LogManager → Buffer → Option (FileManager × LogManager × Buffer)
flush fm l b = if is_negative b.txn_id then some (fm, l, b) else (do
  (fm1, l1) ← Log.flush_to b.lsn fm l
  block ← b.block
  fm2 ← Files.write fm1 block b.contents
  some (fm2, l1, record b { txn_id = negsuc 0 }))

unfoldable pub assign_to_block :
    BlockId → FileManager → LogManager → Buffer → Option (FileManager × LogManager × Buffer)
unfolding flush
assign_to_block block fm l b = do
  (fm1, l1, b1) ← flush fm l b
  (fm2, page) ← Files.read fm1 block (length b1.contents)
  some (fm2, l1, record b1 { block = some block; contents = page; pin_count = pos 0 })

unfoldable pub pin : Buffer → Buffer
unfolding ◌+ℤ◌
pin b = record b { pin_count = b.pin_count +ℤ pos 1 }

unfoldable pub unpin : Buffer → Buffer
unfolding ◌-ℤ◌
unpin b = record b { pin_count = b.pin_count -ℤ pos 1 }
