-- ===== src/Recovery/Undo.antt =====
-- src/txn/recovery/recovery_manager.cpp: the loops of DoRollback and DoRecover, as the calls of
-- `Undo` that they make, in order. What is read are the records of the log, the newest first, as
-- the iterator gives them.
pub mod Calls
use simpledb.Prelude.{
  sym, ap, Bool-cases, inl, inr, ◌∙◌, arith, ◌≡◌, refl, Bool, true, false, not, ◌&&◌, ◌||◌, List,
  [], ◌∷◌, Option, none, some, if◌then◌else◌, ◌++◌,
}
use simpledb.Prelude.Bytes.{Bytes, ◌>>=◌}
use simpledb.Prelude.Int.{ℤ, int_eq, int_eq_iff}
use simpledb.Recovery.{
  LogRecord, checkpoint, start, commit, rollback, set_int_record, set_string_record, txn_of,
  create_log_record,
}

abbrev pub is_checkpoint : LogRecord → Bool
is_checkpoint checkpoint = true
is_checkpoint (start _) = false
is_checkpoint (commit _) = false
is_checkpoint (rollback _) = false
is_checkpoint (set_int_record _ _ _ _) = false
is_checkpoint (set_string_record _ _ _ _) = false

abbrev pub is_start : LogRecord → Bool
is_start checkpoint = false
is_start (start _) = true
is_start (commit _) = false
is_start (rollback _) = false
is_start (set_int_record _ _ _ _) = false
is_start (set_string_record _ _ _ _) = false

-- The record ends its transaction.
abbrev pub is_end : LogRecord → Bool
is_end checkpoint = false
is_end (start _) = false
is_end (commit _) = true
is_end (rollback _) = true
is_end (set_int_record _ _ _ _) = false
is_end (set_string_record _ _ _ _) = false

abbrev pub is_of : ℤ → LogRecord → Bool
is_of txn_id r = int_eq (txn_of r) txn_id

-- `Undo` is called for the record, and then for those of the rest of the loop.
abbrev pub undo_first : LogRecord → Option (List LogRecord) → Option (List LogRecord)
undo_first r rest = do undone ← rest; some (r ∷ undone)

-- One turn of the loop of DoRollback, on the calls that the turns behind it make.
unfoldable pub rollback_turn : ℤ → LogRecord → Option (List LogRecord) → Option (List LogRecord)
rollback_turn txn_id r rest =
    if is_of txn_id r then (if is_start r then some [] else undo_first r rest) else rest

-- A null pointer is followed at once: `none`.
unfoldable pub do_rollback : ℤ → List Bytes → Option (List LogRecord)
unfolding rollback_turn
do_rollback txn_id [] = some []
do_rollback txn_id (bytes ∷ older) = do
  r ← create_log_record bytes
  rollback_turn txn_id r (do_rollback txn_id older)

abbrev pub contains : ℤ → List ℤ → Bool
contains t [] = false
contains t (u ∷ finished) = int_eq t u || contains t finished

-- `finished_txns_` behind a record.
abbrev pub insert_end : LogRecord → List ℤ → List ℤ
insert_end r finished = if is_end r then txn_of r ∷ finished else finished

-- One turn of the loop of DoRecover.
unfoldable pub recover_turn : List ℤ → LogRecord → Option (List LogRecord) → Option (List LogRecord)
recover_turn finished r rest =
    if is_checkpoint r
    then some []
    else if is_end r
    then rest
    else if not (contains (txn_of r) finished)
    then undo_first r rest
    else rest

unfoldable pub do_recover : List ℤ → List Bytes → Option (List LogRecord)
unfolding recover_turn
do_recover finished [] = some []
do_recover finished (bytes ∷ older) = do
  r ← create_log_record bytes
  recover_turn finished r (do_recover (insert_end r finished) older)

-- The records that are read from the bytes.
abbrev pub Reads : List LogRecord → List Bytes → Type 0
Reads [] [] = Unit
Reads [] (_ ∷ _) = ⊥
Reads (_ ∷ _) [] = ⊥
Reads (r ∷ records) (bytes ∷ older) = (create_log_record bytes ≡ some r) × Reads records older

-- Of a list of records, those that pass the test.
abbrev pub select : (LogRecord → Bool) → List LogRecord → List LogRecord
select test [] = []
select test (r ∷ records) = if test r then r ∷ select test records else select test records

-- No record of the list passes the test.
abbrev pub none_of : (LogRecord → Bool) → List LogRecord → Bool
none_of test [] = true
none_of test (r ∷ records) = not (test r) && none_of test records

-- The transactions that ended among the records.
abbrev pub ended : List LogRecord → List ℤ
ended [] = []
ended (r ∷ records) = if is_end r then txn_of r ∷ ended records else ended records

-- The records whose `Undo` does something.
abbrev pub is_change : LogRecord → Bool
is_change checkpoint = false
is_change (start _) = false
is_change (commit _) = false
is_change (rollback _) = false
is_change (set_int_record _ _ _ _) = true
is_change (set_string_record _ _ _ _) = true

-- A transaction makes no change behind its end.
abbrev pub IsOrdered : List LogRecord → Type 0
IsOrdered [] = Unit
IsOrdered (r ∷ older) =
    (is_change r ≡ true → contains (txn_of r) (ended older) ≡ false) × IsOrdered older

-- The list is empty, or its newest record is a checkpoint.
abbrev pub IsBehind : List LogRecord → Type 0
IsBehind [] = Unit
IsBehind (r ∷ _) = is_checkpoint r ≡ true
