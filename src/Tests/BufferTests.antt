-- ===== src/Tests/BufferTests.antt =====
-- A pool of buffers over a file of one block.
use simpledb.Transaction.BufferList.{BufferList, unpin_all, note_pin}
use simpledb.Transaction.BufferList.Unpins.{held, pins_at}
use simpledb.Transaction.BufferList.Balance.{run_pins, unpin_all-run_pins}
use simpledb.Prelude.{
  ℕ, ◌+◌, ◌≤◌, ◌≡◌, refl, Bool, true, false, List, [], ◌∷◌, Option, none, some, arith,
  if◌then◌else◌, ◌++◌, replicate,
}
use simpledb.Prelude.Bytes.{◌>>=◌, read_at}
use simpledb.Prelude.Int.{pos, negsuc, int_eq, ltb_ℤ}
use simpledb.Prelude.Text.{codes, text_eq}
use simpledb.File.Block.{FileName, BlockId}
use simpledb.File.Manager as Files
use simpledb.File.Manager.{FileManager, get_file}
use simpledb.File.Manager.Blocks.{block_at}
use simpledb.File.Page.{Page, get_int, get_bytes, decode_int}
use simpledb.Log.{LogManager}
use simpledb.Log.Records.{LogHolds}
use simpledb.Buffer
use simpledb.Buffer.{Buffer, is_negative, is_pinned}
use simpledb.Buffer.Invariant.{IsBuffer, IsPool, IsOpen, IsSaved}
use simpledb.Buffer.Manager
use simpledb.Buffer.Manager.{BufferManager, Pinned, try_to_pin, flush_all, holds}
use simpledb.Buffer.Pins.{IsAnswer, init-IsPool, try_to_pin_lem}
use simpledb.Buffer.Pool.{All, one_if}
use simpledb.Buffer.WriteAhead.{IsRestored, flush-write_ahead, flush_all_lem}

abbrev table : FileName
table = codes "table"

abbrev disk : FileManager
disk = record {
  files = λ f. if text_eq table f then some (replicate 20 7) else none;
  block_size = 20;
  is_new = false;
}

abbrev log : LogManager
log = record {
  log_file = codes "log";
  log_page = replicate 20 0;
  current_block = block_at (codes "log") 0;
  latest_lsn = 3;
  last_saved_lsn = 1;
}

-- A buffer that transaction 5 has modified, with the third record of the log.
abbrev modified : Buffer
modified = record {
  contents = replicate 20 9;
  block = some (block_at table 0);
  pin_count = pos 1;
  txn_id = pos 5;
  lsn = pos 3;
}

abbrev pool : BufferManager
pool = record { buffer_pool = modified ∷ []; num_available = pos 0 }

one_if-le : (b : Bool) → one_if b + 0 ≤ 1
one_if-le true = omega arith
one_if-le false = omega arith

modified-IsBuffer : IsBuffer modified
modified-IsBuffer = record { pins = refl; placed = refl }

pool-IsPool : IsPool pool
pool-IsPool = record {
  counted = refl;
  single = λ c. one_if-le (holds c modified);
  buffers = (modified-IsBuffer, tt);
}

-- The buffers that two requests for different blocks give.
abbrev answers : Option Pinned → Option (List (Option ℕ))
answers none = none
answers (some p) = do
  q ← try_to_pin (block_at table 1) p.files p.log p.manager
  some (p.buffer ∷ q.buffer ∷ [])

-- The one buffer of the pool goes to the first request.
pin_twice :
    answers (try_to_pin (block_at table 0) disk log (Manager.init disk 1))
    ≡ some (some 0 ∷ none ∷ [])
unfolding text_eq get_file Files.read Manager.init Buffer.init try_to_pin int_eq Buffer.flush
    Buffer.assign_to_block Buffer.pin Manager.pin_buffer Manager.find_existing_buffer
    Manager.choose_unpinned_buffer simpledb.File.Block.block_eq
pin_twice = refl

try_to_pin_lem_example :
    (p : Pinned) × (try_to_pin (block_at table 0) disk log (Manager.init disk 2) ≡ some p)
    × IsOpen p.log
    × IsPool p.manager
    × IsAnswer (block_at table 0) (Manager.init disk 2) p.manager p.buffer
try_to_pin_lem_example =
    try_to_pin_lem (block_at table 0) disk log (Manager.init disk 2) refl
      (init-IsPool disk 2 (block_at table 0)) refl

-- A log with a page that holds its one record, on a disk with a block of zeros for it.
abbrev record_page : Page
record_page = 14 ∷ replicate 13 0 ++ (2 ∷ 0 ∷ 0 ∷ 0 ∷ 7 ∷ 8 ∷ [])

abbrev filled_disk : FileManager
filled_disk = record disk {
  files = λ f. if text_eq (codes "log") f then some (replicate 20 0) else none;
}

abbrev filled_log : LogManager
filled_log = record log { log_page = record_page }

filled_log-LogHolds : LogHolds filled_disk filled_log ((7 ∷ 8 ∷ []) ∷ [])
unfolding mathlib.Core.List.flatten get_file Files.read text_eq get_int get_bytes decode_int read_at
filled_log-LogHolds = record {
  current = (7 ∷ 8 ∷ []) ∷ [];
  older = [];
  all = refl;
  sized = record { bytes = replicate 20 0; there = refl; sized = refl; positive = omega arith };
  block = refl;
  page = record {
    boundary = 14;
    is_size = refl;
    stored = refl;
    lower = omega arith;
    upper = omega arith;
    chunk = (refl, refl);
  };
  below = tt;
  small = omega arith;
}

flush-write_ahead_example :
    (fm1 : FileManager) × (l' : LogManager) × (c : BlockId) × (fm' : FileManager) × (modified.block
      ≡ some c)
    × (Files.write fm1 c modified.contents ≡ some fm')
    × (Buffer.flush filled_disk filled_log modified
        ≡ some (fm', l', record modified { txn_id = negsuc 0 }))
    × IsSaved (pos 3) l'
    × (ltb_ℤ (pos 1) (pos 3) ≡ true → IsRestored fm1 (codes "log") ((7 ∷ 8 ∷ []) ∷ []))
    × (ltb_ℤ (pos 1) (pos 3) ≡ false → fm1 ≡ filled_disk)
flush-write_ahead_example =
    flush-write_ahead filled_disk filled_log modified ((7 ∷ 8 ∷ []) ∷ []) filled_log-LogHolds
      modified-IsBuffer refl refl

flush_all_lem_example :
    (fm' : FileManager) × (l' : LogManager) × (m' : BufferManager) × (flush_all
        (pos 5)
        disk
        log
        pool
      ≡ some (fm', l', m'))
    × IsOpen l'
    × IsPool m'
    × All (λ b. int_eq b.txn_id (pos 5) ≡ false) m'.buffer_pool
flush_all_lem_example = flush_all_lem (pos 5) disk log pool refl refl pool-IsPool

abbrev twice : List BlockId
twice = block_at table 0 ∷ block_at table 0 ∷ []

abbrev pinned_pool : BufferManager
pinned_pool = record {
  buffer_pool = record modified { pin_count = pos 3 } ∷ [];
  num_available = pos 0;
}

abbrev pinned_twice : BufferList
pinned_twice = record { block = block_at table 0; buffer = 0; pins = 2 } ∷ []

run_pins_test : run_pins twice disk log pool [] ≡ some (disk, log, pinned_pool, pinned_twice)
unfolding run_pins try_to_pin Manager.find_existing_buffer simpledb.File.Block.block_eq text_eq
    int_eq note_pin
run_pins_test = refl

unpin_all-run_pins_example :
    ((i : ℕ) → pins_at pinned_pool.buffer_pool i ≡ pins_at pool.buffer_pool i + held pinned_twice i)
    × (m'' : BufferManager) × (unpin_all pinned_pool pinned_twice ≡ some (m'', []))
    × IsPool m''
    × ((i : ℕ) → pins_at m''.buffer_pool i ≡ pins_at pool.buffer_pool i)
unpin_all-run_pins_example =
    unpin_all-run_pins twice disk log pool refl pool-IsPool (refl, (refl, tt)) run_pins_test
