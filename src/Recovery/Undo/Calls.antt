-- ===== src/Recovery/Undo/Calls.antt =====
-- Which calls of Undo the loops make: rollback undoes the records of its transaction, recovery the
-- changes of the transactions that did not end.
use simpledb.Prelude.{
  ◌≡◌, refl, sym, ap, ◌∙◌, Bool, true, false, not, ◌&&◌, ◌||◌, List, [], ◌∷◌, ◌++◌, some,
  if◌then◌else◌, arith, Bool-cases, inl, inr,
}
use simpledb.Prelude.Bytes.{Bytes}
use simpledb.Prelude.Int.{ℤ, int_eq_iff}
use simpledb.Recovery.{
  LogRecord, checkpoint, start, commit, rollback, set_int_record, set_string_record, txn_of,
  create_log_record,
}
use simpledb.Recovery.Undo.{
  is_checkpoint, is_start, is_end, is_of, rollback_turn, do_rollback, contains, recover_turn,
  do_recover, Reads, select, none_of, ended, is_change, IsOrdered, IsBehind,
}

module _ (txn_id : ℤ) where
  -- When the records above the START of a transaction hold no other START of it, DoRollback calls
  -- Undo for those of them that are the transaction's, the newest first, and for no other record.
  pub do_rollback_lem :
      (newer older : List LogRecord) (log : List Bytes)
      → Reads (newer ++ (start txn_id ∷ older)) log
      → none_of (λ r. is_of txn_id r && is_start r) newer ≡ true
      → do_rollback txn_id log ≡ some (select (is_of txn_id) newer)
  unfolding do_rollback rollback_turn txn_of
  do_rollback_lem [] older [] reads h = absurd reads
  do_rollback_lem [] older (_ ∷ _) (e, rest) h = rw e (ground (arith, int_eq_iff txn_id txn_id))
  do_rollback_lem (r ∷ newer) older [] reads h = absurd reads
  do_rollback_lem (r ∷ newer) older (_ ∷ log) (e, rest) h =
      let next = do_rollback_lem newer older log rest (ground arith) in rw (e, next) (ground arith)

-- The record is a change of a transaction that is in neither of the lists.
abbrev open_change : List ℤ → List ℤ → LogRecord → Bool
open_change finished others r =
    is_change r && not (contains (txn_of r) finished || contains (txn_of r) others)

select-cong :
    (f g : LogRecord → Bool) (records : List LogRecord)
    → ((r : LogRecord) → f r ≡ g r)
    → select f records ≡ select g records
select-cong f g [] h = refl
select-cong f g (r ∷ records) h = rw (h r, select-cong f g records h) refl

-- It is the same whether an end is counted with the one list or with the other.
open_change-end :
    (t : ℤ) (finished others : List ℤ) (r : LogRecord)
    → open_change (t ∷ finished) others r ≡ open_change finished (t ∷ others) r
open_change-end t finished others r = ground arith

is_end-is_change : (r : LogRecord) → is_end r ≡ true → is_change r ≡ false
is_end-is_change checkpoint h = refl
is_end-is_change (start _) h = refl
is_end-is_change (commit _) h = refl
is_end-is_change (rollback _) h = refl
is_end-is_change (set_int_record _ _ _ _) h = cc
is_end-is_change (set_string_record _ _ _ _) h = cc

Undoes : List ℤ → List LogRecord → List Bytes → Type 0
Undoes finished newer log =
    (undone : List LogRecord) × (do_recover finished log ≡ some undone)
    × (select is_change undone ≡ select (open_change finished (ended newer)) newer)

module _ (r : LogRecord) (bytes : Bytes) (finished : List ℤ) (newer : List LogRecord)
    (log : List Bytes) (read : create_log_record bytes ≡ some r)
    (goes_on : is_checkpoint r ≡ false) where
  ended-end : is_end r ≡ true → ended (r ∷ newer) ≡ txn_of r ∷ ended newer
  ended-end h = rw h refl

  ended-open : is_end r ≡ false → ended (r ∷ newer) ≡ ended newer
  ended-open h = rw h refl

  selected :
      (ends : List ℤ)
      → ended (r ∷ newer) ≡ ends
      → select (open_change finished (ended (r ∷ newer))) (r ∷ newer) ≡ (
          if open_change finished ends r
          then r ∷ select (open_change finished ends) newer
          else select (open_change finished ends) newer)
  selected ends e = ap (λ o. select (open_change finished o) (r ∷ newer)) e

  Undoes-end :
      is_end r ≡ true
      → Undoes (txn_of r ∷ finished) newer log
      → Undoes finished (r ∷ newer) (bytes ∷ log)
  unfolding Undoes do_recover recover_turn
  Undoes-end h (undone, e, same) = (
    undone,
    rw (read, goes_on, h) e,
    same
        ∙ select-cong (open_change (txn_of r ∷ finished) (ended newer))
            (open_change finished (txn_of r ∷ ended newer)) newer
            (open_change-end (txn_of r) finished (ended newer))
        ∙ sym (selected _ (ended-end h) ∙ rw (is_end-is_change r h) refl),
  )

  Undoes-open :
      is_end r ≡ false
      → (is_change r ≡ true → contains (txn_of r) (ended newer) ≡ false)
      → Undoes finished newer log
      → Undoes finished (r ∷ newer) (bytes ∷ log)
  unfolding Undoes do_recover recover_turn
  Undoes-open h later (undone, e, same) =
      let chosen = selected (ended newer) (ended-open h) in
      elim (Bool-cases (contains (txn_of r) finished)) [
        | inl old ↦
            let dropped : open_change finished (ended newer) r ≡ false = rw old (ground arith) in
            (undone, rw (read, goes_on, h, old) e, same ∙ sym (chosen ∙ rw dropped refl))
        | inr new ↦
            let kept : open_change finished (ended newer) r ≡ is_change r = rw new (ground arith) in
            (r ∷ undone, rw (read, goes_on, h, new, e) refl, rw (chosen, kept, same) refl)
      ]

recover_from :
    (finished : List ℤ) (newer older : List LogRecord) (log : List Bytes)
    → Reads (newer ++ older) log
    → none_of is_checkpoint newer ≡ true
    → IsBehind older
    → IsOrdered newer
    → Undoes finished newer log
unfolding Undoes do_recover recover_turn
recover_from finished [] [] [] reads h behind ordered = ([], refl, refl)
recover_from finished [] [] (_ ∷ _) reads h behind ordered = absurd reads
recover_from finished [] (r ∷ older) [] reads h behind ordered = absurd reads
recover_from finished [] (r ∷ older) (_ ∷ log) (read, reads) h behind ordered =
    ([], rw (read, behind) refl, refl)
recover_from finished (r ∷ newer) older [] reads h behind ordered = absurd reads
recover_from finished (r ∷ newer) older (bytes ∷ log) (read, reads) h behind (later, ordered) =
    let goes_on : is_checkpoint r ≡ false = ground arith in
    let next = λ (f : List ℤ). recover_from f newer older log reads (ground arith) behind ordered in
    elim (Bool-cases (is_end r)) [
      | inl e ↦ Undoes-end r bytes finished newer log read goes_on e (next (txn_of r ∷ finished))
      | inr e ↦ Undoes-open r bytes finished newer log read goes_on e later (next finished)
    ]

-- In a log without a checkpoint, or above its newest one, where no transaction makes a change behind
-- its end: DoRecover calls Undo for just those changes, the newest first, whose transaction has
-- neither committed nor been rolled back, and for no change below the checkpoint.
pub do_recover_lem :
    (newer older : List LogRecord) (log : List Bytes)
    → Reads (newer ++ older) log
    → none_of is_checkpoint newer ≡ true
    → IsBehind older
    → IsOrdered newer
    → (undone : List LogRecord) × (do_recover [] log ≡ some undone)
      × (select is_change undone
          ≡ select (λ r. is_change r && not (contains (txn_of r) (ended newer))) newer)
unfolding Undoes
do_recover_lem = recover_from []
