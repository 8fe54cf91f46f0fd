-- ===== src/Tests/LogTests.antt =====
-- A log with blocks of 20 bytes and one record of two bytes.
use mathlib.Core.List.{flatten}
use simpledb.Prelude.{◌≡◌, refl, false, List, [], ◌∷◌, none, some, arith, if◌then◌else◌}
use simpledb.Prelude.Bytes.{Bytes, ◌>>=◌, read_at, write_at}
use simpledb.Prelude.Int.{int_eq, ◌+ℤ◌, ◌-ℤ◌}
use simpledb.Prelude.Text.{codes, text_eq}
use simpledb.File.Block.{FileName}
use simpledb.File.Manager
use simpledb.File.Manager.{FileManager, get_file}
use simpledb.File.Manager.Blocks.{IsSized, block_at}
use simpledb.File.Page.{Page, encode_int, decode_int, get_int, set_int, get_bytes, set_bytes}
use simpledb.Log
use simpledb.Log.{LogManager}
use simpledb.Log.Append.{append-LogHolds}
use simpledb.Log.Iterate.{read_all-iterator}
use simpledb.Log.Records.{LogHolds}
use simpledb.Log.Restart.{init-flush}

abbrev name : FileName
name = codes "log"

abbrev page : Page
page = 14 ∷ 0 ∷ 0 ∷ 0 ∷ 0 ∷ 0 ∷ 0 ∷ 0 ∷ 0 ∷ 0 ∷ 0 ∷ 0 ∷ 0 ∷ 0 ∷ 2 ∷ 0 ∷ 0 ∷ 0 ∷ 7 ∷ 8 ∷ []

abbrev disk : FileManager
disk = record {
  files = λ f. if text_eq name f then some page else none;
  block_size = 20;
  is_new = false;
}

abbrev log : LogManager
log = record {
  log_file = name;
  log_page = page;
  current_block = block_at name 0;
  latest_lsn = 1;
  last_saved_lsn = 0;
}

abbrev records : List Bytes
records = (7 ∷ 8 ∷ []) ∷ []

program : Unit {0}
unfolding text_eq get_int decode_int encode_int get_bytes set_int set_bytes read_at write_at
    get_file Manager.read Manager.write Manager.append Manager.file_length Log.append Log.flush
    Log.append_new_block Log.make_room Log.place Log.init Log.start Log.move_to_block Log.turn
    Log.has_next Log.next Log.iterator Log.read_all int_eq ◌+ℤ◌ ◌-ℤ◌ flatten
program = tt

disk-IsSized : IsSized disk name 1
unfolding program
disk-IsSized = record { bytes = page; there = refl; sized = refl; positive = omega arith }

log-LogHolds : LogHolds disk log records
unfolding program
log-LogHolds = record {
  current = records;
  older = [];
  all = refl;
  sized = disk-IsSized;
  block = refl;
  page = record {
    boundary = 14;
    is_size = refl;
    stored = refl;
    lower = omega arith;
    upper = omega arith;
    chunk = (refl, refl);
  };
  below = tt;
  small = omega arith;
}

-- The second record does not fit beside the first: it goes to a second block.
append_twice :
    (Log.append (1 ∷ 2 ∷ 3 ∷ []) disk log >>= λ a.
    Log.iterator a.0 a.1 >>= λ s. Log.read_all 3 s.0 s.2)
    ≡ some ((1 ∷ 2 ∷ 3 ∷ []) ∷ (7 ∷ 8 ∷ []) ∷ [])
unfolding program
append_twice = refl

append-LogHolds_example :
    (fm' : FileManager) × (l' : LogManager) × (Log.append (1 ∷ 2 ∷ 3 ∷ []) disk log
      ≡ some (fm', l', 2))
    × LogHolds fm' l' ((1 ∷ 2 ∷ 3 ∷ []) ∷ records)
    × (l'.latest_lsn ≡ 2)
    × (l'.log_file ≡ name)
    × (fm'.block_size ≡ 20)
append-LogHolds_example =
    append-LogHolds disk log records (1 ∷ 2 ∷ 3 ∷ []) log-LogHolds (omega arith)

read_all-iterator_example :
    (Log.iterator disk log >>= λ state. Log.read_all 2 state.0 state.2) ≡ some records
read_all-iterator_example = read_all-iterator disk log records 2 log-LogHolds (omega arith)

init-flush_example :
    (fm' : FileManager) × (l' : LogManager) × ((Log.flush disk log >>= λ state.
    Log.init state.0 name)
      ≡ some (fm', l'))
    × LogHolds fm' l' records
init-flush_example = init-flush disk log records log-LogHolds
