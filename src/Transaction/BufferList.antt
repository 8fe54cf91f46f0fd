-- ===== src/Transaction/BufferList.antt =====
-- src/txn/buffer_list.h and buffer_list.cpp: the buffers that a transaction has pinned, with the
-- number of its pins for each block. A pointer to a buffer is its place in the pool. `Pin` of the
-- pool stands for its last `TryToPin`, without the wait.
pub mod Unpins
pub mod Balance
pub mod Pins
use simpledb.Prelude.{ℕ, zero, suc, ◌-◌, List, [], ◌∷◌, Option, none, some, ◌==◌, if◌then◌else◌}
use simpledb.Prelude.Bytes.{◌>>=◌}
use simpledb.File.Block.{BlockId, block_eq}
use simpledb.File.Manager.{FileManager}
use simpledb.Log.{LogManager}
use simpledb.Buffer.Manager
use simpledb.Buffer.Manager.{BufferManager, Pinned, try_to_pin}

pub record Entry : Type 0 where
  pub block : BlockId
  pub buffer : ℕ
  pub pins : ℕ

abbrev pub BufferList : Type 0
BufferList = List Entry

unfoldable pub find_entry : BlockId → BufferList → Option Entry
unfolding block_eq
find_entry block [] = none
find_entry block (e ∷ l) = if block_eq e.block block then some e else find_entry block l

-- `GetBuffer`, with `none` for the null pointer.
unfoldable pub get_buffer : BlockId → BufferList → Option ℕ
unfolding find_entry
get_buffer block l = do e ← find_entry block l; some e.buffer

-- `buffers_.at(block).second++`
unfoldable pub count_pin : BlockId → BufferList → BufferList
unfolding block_eq
count_pin block [] = []
count_pin block (e ∷ l) =
    if block_eq e.block block then record e { pins = suc e.pins } ∷ l else e ∷ count_pin block l

-- A block that is not in the list is put into it first, with no pin.
unfoldable pub note_pin : BlockId → ℕ → BufferList → BufferList
unfolding find_entry count_pin
note_pin block buffer l = elim (find_entry block l) [
  | none ↦ count_pin block (record { block = block; buffer = buffer; pins = 0 } ∷ l)
  | some _ ↦ count_pin block l
]

-- `Pin`; `none` is the exception, when no buffer is available.
unfoldable pub pin :
    BlockId
    → FileManager
    → LogManager
    → BufferManager
    → BufferList
    → Option (FileManager × LogManager × BufferManager × BufferList)
unfolding note_pin
pin block fm l m list = do
  p ← try_to_pin block fm l m
  buffer ← p.buffer
  some (p.files, p.log, p.manager, note_pin block buffer list)

-- One pin less for the block, which leaves the list with the last one.
unfoldable pub drop_pin : BlockId → BufferList → BufferList
unfolding block_eq
drop_pin block [] = []
drop_pin block (e ∷ l) =
    if block_eq e.block block
    then (if e.pins - 1 == 0 then l else record e { pins = e.pins - 1 } ∷ l)
    else e ∷ drop_pin block l

-- `Unpin`; `none` is the exception for a block that is not in the list.
unfoldable pub unpin : BlockId → BufferManager → BufferList → Option (BufferManager × BufferList)
unfolding find_entry drop_pin
unpin block m list = do
  e ← find_entry block list
  m' ← Manager.unpin e.buffer m
  some (m', drop_pin block list)

-- The inner loop of `UnpinAll`.
unfoldable pub unpin_times : ℕ → ℕ → BufferManager → Option BufferManager
unpin_times zero buffer m = some m
unpin_times (suc n) buffer m = do m' ← Manager.unpin buffer m; unpin_times n buffer m'

unfoldable pub unpin_entries : BufferList → BufferManager → Option BufferManager
unfolding unpin_times
unpin_entries [] m = some m
unpin_entries (e ∷ l) m = do m' ← unpin_times e.pins e.buffer m; unpin_entries l m'

-- `UnpinAll`
unfoldable pub unpin_all : BufferManager → BufferList → Option (BufferManager × BufferList)
unfolding unpin_entries
unpin_all m list = do m' ← unpin_entries list m; some (m', [])
