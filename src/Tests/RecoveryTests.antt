-- ===== src/Tests/RecoveryTests.antt =====
-- Log records, and a log of two transactions.
use simpledb.Prelude.{◌≡◌, refl, not, ◌&&◌, List, [], ◌∷◌, ◌++◌, none, some, arith}
use simpledb.Prelude.Bytes.{Bytes, read_at, write_at}
use simpledb.Prelude.Int.{pos, negsuc, int_eq}
use simpledb.Prelude.Text.{codes, text_eq}
use simpledb.File.Block.{BlockId}
use simpledb.File.Manager.Blocks.{block_at}
use simpledb.File.Page.{
  get_int, decode_int, encode_int, get_bytes, set_int, set_bytes, set_string, get_string,
}
use simpledb.Recovery
use simpledb.Recovery.{
  LogRecord, checkpoint, start, commit, rollback, set_int_record, set_string_record, txn_of,
  record_bytes, create_log_record,
}
use simpledb.Recovery.RoundTrip.{create_log_record-record_bytes}
use simpledb.Recovery.Undo.{
  Reads, do_rollback, do_recover, select, is_of, is_change, contains, ended,
}
use simpledb.Recovery.Undo.Calls.{do_rollback_lem, do_recover_lem}

abbrev block : BlockId
block = block_at (codes "t") 2

abbrev change : LogRecord
change = set_int_record (pos 1) block (pos 8) (negsuc 4)

abbrev other_change : LogRecord
other_change = set_string_record (pos 2) block (pos 12) (codes "ab")

abbrev bytes_of : LogRecord → Bytes
bytes_of r = elim (record_bytes r) [ none ↦ [] | some bytes ↦ bytes ]

create_log_record-record_bytes_example :
    (bytes : Bytes) × (record_bytes other_change ≡ some bytes)
    × (create_log_record bytes ≡ some other_change)
create_log_record-record_bytes_example =
    create_log_record-record_bytes other_change
      (omega arith, omega arith, omega arith, omega arith, omega arith)

-- Transaction 1 ended, transaction 2 did not, and there was a checkpoint before.
abbrev log : List Bytes
log =
    bytes_of (commit (pos 1))
    ∷ bytes_of other_change
    ∷ bytes_of change
    ∷ bytes_of (start (pos 2))
    ∷ bytes_of (start (pos 1))
    ∷ bytes_of checkpoint
    ∷ []

abbrev newer : List LogRecord
newer = commit (pos 1) ∷ other_change ∷ change ∷ start (pos 2) ∷ start (pos 1) ∷ []

program : Unit {0}
unfolding record_bytes create_log_record text_eq get_int decode_int encode_int get_bytes set_int
    set_bytes read_at write_at txn_of int_eq Recovery.txn_bytes set_string get_string
    Recovery.change_header
program = tt

log-Reads : Reads (newer ++ (checkpoint ∷ [])) log
unfolding program
log-Reads = (refl, (refl, (refl, (refl, (refl, (refl, tt))))))

do_rollback_lem_example :
    do_rollback (pos 2) log
    ≡ some (select (is_of (pos 2)) (commit (pos 1) ∷ other_change ∷ change ∷ []))
unfolding program
do_rollback_lem_example =
    do_rollback_lem (pos 2) (commit (pos 1) ∷ other_change ∷ change ∷ [])
      (start (pos 1) ∷ checkpoint ∷ []) log log-Reads refl

do_recover_lem_example :
    (undone : List LogRecord) × (do_recover [] log ≡ some undone)
    × (select is_change undone
        ≡ select (λ r. is_change r && not (contains (txn_of r) (ended newer))) newer)
unfolding program
do_recover_lem_example =
    do_recover_lem newer (checkpoint ∷ []) log log-Reads refl refl
      (λ _. refl, (λ _. refl, (λ _. refl, (λ _. refl, (λ _. refl, tt)))))
