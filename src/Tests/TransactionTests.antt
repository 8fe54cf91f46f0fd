-- ===== src/Tests/TransactionTests.antt =====
-- A change of a value in a block of the file `t`, with an empty log of one block.
use simpledb.Prelude.{
  List, ◌++◌, true, ◌≡◌, refl, false, [], ◌∷◌, none, some, arith, if◌then◌else◌, replicate,
}
use simpledb.Prelude.Bytes.{Bytes, read_at, write_at}
use simpledb.Prelude.Int.{pos, negsuc}
use simpledb.Prelude.Text.{codes, text_eq}
use simpledb.File.Block.{FileName}
use simpledb.File.Manager.{FileManager, get_file}
use simpledb.File.Manager
use simpledb.File.Manager.Blocks.{IsSized, block_at}
use simpledb.File.Page.{get_bytes, Page, encode_int, decode_int, get_int}
use simpledb.Buffer.{Buffer}
use simpledb.Log.{LogManager}
use simpledb.Log.Records.{LogHolds}
use simpledb.Recovery.{LogRecord, set_int_record, create_log_record}
use simpledb.Transaction.{write_int, undo_int, undo_records}
use simpledb.Recovery.Undo.{do_rollback}
use simpledb.Transaction.Rollback.{Write, write_ints, rollback-write_ints}
use simpledb.Transaction.Restore.{write_int-undo_int}

abbrev log_name : FileName
log_name = codes "log"

abbrev log_page : Page
log_page = 48 ∷ replicate 47 0

abbrev disk : FileManager
disk = record {
  files = λ f. if text_eq log_name f then some log_page else none;
  block_size = 48;
  is_new = false;
}

abbrev log : LogManager
log = record {
  log_file = log_name;
  log_page = log_page;
  current_block = block_at log_name 0;
  latest_lsn = 0;
  last_saved_lsn = 0;
}

-- The buffer holds 5 at offset 4.
abbrev buffer : Buffer
buffer = record {
  contents = 0 ∷ 0 ∷ 0 ∷ 0 ∷ 5 ∷ 0 ∷ 0 ∷ 0 ∷ [];
  block = some (block_at (codes "t") 1);
  pin_count = pos 1;
  txn_id = negsuc 0;
  lsn = negsuc 0;
}

program : Unit {0}
unfolding create_log_record get_bytes mathlib.Core.List.flatten text_eq get_int decode_int
    encode_int read_at write_at get_file Manager.read
program = tt

disk-IsSized : IsSized disk log_name 1
unfolding program
disk-IsSized = record { bytes = log_page; there = refl; sized = refl; positive = omega arith }

log-LogHolds : LogHolds disk log []
unfolding program
log-LogHolds = record {
  current = [];
  older = [];
  all = refl;
  sized = disk-IsSized;
  block = refl;
  page = record {
    boundary = 48;
    is_size = refl;
    stored = refl;
    lower = omega arith;
    upper = omega arith;
    chunk = refl;
  };
  below = tt;
  small = omega arith;
}

write_int-undo_int_example :
    (fm' : FileManager) × (l' : LogManager) × (b' : Buffer) × (bytes : Bytes) × (write_int
        (pos 7)
        4
        (negsuc 1)
        true
        disk
        log
        buffer
      ≡ some (fm', l', b'))
    × LogHolds fm' l' (bytes ∷ [])
    × (create_log_record bytes
        ≡ some (set_int_record (pos 7) (block_at (codes "t") 1) (pos 4) (pos 5)))
    × (b'.lsn ≡ pos l'.latest_lsn)
    × (get_int b'.contents 4 ≡ some (negsuc 1))
    × (undo_int (pos 7) 4 (pos 5) fm' l' b'
        ≡ some (fm', l', record b' { contents = buffer.contents }))
unfolding program
write_int-undo_int_example =
    write_int-undo_int disk log [] buffer (block_at (codes "t") 1) (pos 7) 4 (pos 5) (negsuc 1)
      log-LogHolds refl (omega arith)
      (omega arith, omega arith, omega arith, omega arith, omega arith) (omega arith) refl
      (omega arith)

-- A log of one block that holds the START of transaction 7.
abbrev started : Bytes
started = 1 ∷ 0 ∷ 0 ∷ 0 ∷ 7 ∷ 0 ∷ 0 ∷ 0 ∷ []

abbrev started_page : Page
started_page = 52 ∷ (replicate 51 0 ++ (8 ∷ 0 ∷ 0 ∷ 0 ∷ started))

abbrev started_disk : FileManager
started_disk = record {
  files = λ f. if text_eq log_name f then some started_page else none;
  block_size = 64;
  is_new = false;
}

abbrev started_log : LogManager
started_log = record log { log_page = started_page; latest_lsn = 1 }

started-LogHolds : LogHolds started_disk started_log (started ∷ [])
unfolding program
started-LogHolds = record {
  current = started ∷ [];
  older = [];
  all = refl;
  sized = record { bytes = started_page; there = refl; sized = refl; positive = omega arith };
  block = refl;
  page = record {
    boundary = 52;
    is_size = refl;
    stored = refl;
    lower = omega arith;
    upper = omega arith;
    chunk = (refl, refl);
  };
  below = tt;
  small = omega arith;
}

-- The value at offset 4 changes twice.
abbrev writes : List Write
writes =
    record { offset = 4; old = pos 5; val = negsuc 1 }
    ∷ record { offset = 4; old = negsuc 1; val = pos 3 }
    ∷ []

rollback-write_ints_example :
    (fm' : FileManager) × (l' : LogManager) × (b' : Buffer) × (log : List Bytes) × (calls : List
      LogRecord)
    × (b'' : Buffer) × (write_ints (pos 7) writes started_disk started_log buffer
        ≡ some (fm', l', b'))
    × LogHolds fm' l' log
    × (do_rollback (pos 7) log ≡ some calls)
    × (undo_records (pos 7) calls fm' l' b' ≡ some (fm', l', b''))
    × (b''.contents ≡ buffer.contents)
unfolding program
rollback-write_ints_example =
    rollback-write_ints (pos 7) (block_at (codes "t") 1) writes started_disk started_log started []
      buffer started-LogHolds refl refl (omega arith)
      (
        omega arith,
        (omega arith, omega arith, omega arith, omega arith, omega arith),
        omega arith,
        refl,
        (
          omega arith,
          (omega arith, omega arith, omega arith, omega arith, omega arith),
          omega arith,
          refl,
          tt,
        ),
      )
