-- ===== src/Transaction/Logged.antt =====
-- src/txn/transaction.cpp: changes that are logged, as they meet the log and the buffer.
use simpledb.Prelude.{◌≡◌, refl, ap, ◌+◌, ◌≤◌, ℕ, true, List, ◌∷◌, some, arith, length}
use simpledb.Prelude.Bytes.{Bytes}
use simpledb.Prelude.Int.{ℤ, pos}
use simpledb.File.Block.{BlockId}
use simpledb.File.Manager.{FileManager}
use simpledb.File.Page.{Page, int_size, get_int, set_int, get_string, set_string}
use simpledb.Log.{LogManager}
use simpledb.Log.Append.{append-LogHolds}
use simpledb.Log.Records.{LogHolds}
use simpledb.Buffer.{Buffer}
use simpledb.Recovery.{set_string_record, record_bytes, write_to_log, val_pos}
use simpledb.Recovery.RoundTrip.{int_change, record_bytes-int_change, length-int_change}
use simpledb.Transaction.{
  write_int, log_if, log_old_int, write_string, log_string_if, log_old_string,
}
use simpledb.Transaction.Restore.{set_modified-pos}

module _ (txn_id : ℤ) (fm : FileManager) (l : LogManager) (records : List Bytes) (b : Buffer)
    (block : BlockId) (h : LogHolds fm l records) (placed : b.block ≡ some block) where
  -- The buffer after a logged change of its contents.
  abbrev changed_to : Page → Buffer
  changed_to contents = record b {
    contents = contents;
    txn_id = txn_id;
    lsn = pos (l.latest_lsn + 1);
  }

  pub write_int-logged :
      (offset : ℕ) (old val : ℤ) (q : Page)
      → get_int b.contents offset ≡ some old
      → set_int b.contents offset val ≡ some q
      → val_pos block + int_size + int_size + int_size ≤ fm.block_size
      → (fm' : FileManager) × (l' : LogManager) × (write_int txn_id offset val true fm l b
          ≡ some (fm', l', changed_to q))
        × LogHolds fm' l' (int_change txn_id block (pos offset) old ∷ records)
  unfolding write_int log_if
  write_int-logged offset old val q read written room =
      let bytes = int_change txn_id block (pos offset) old in
      let (fm', l', e, h', _, _, _) =
        append-LogHolds fm l records bytes h
          (omega (arith, length-int_change txn_id block (pos offset) old)) in
      let logged : log_old_int txn_id offset fm l b ≡ some (fm', l', pos (l.latest_lsn + 1)) =
        unfold log_old_int write_to_log in
        rw (read, placed, record_bytes-int_change txn_id block (pos offset) old, e) refl in
      (
        fm',
        l',
        rw (logged, written)
            (ap (λ c. some (fm', l', c))
              (set_modified-pos txn_id (l.latest_lsn + 1) (record b { contents = q }))),
        h',
      )

  pub write_string-logged :
      (offset : ℕ) (old val bytes : Bytes) (q : Page)
      → get_string b.contents offset ≡ some old
      → record_bytes (set_string_record txn_id block (pos offset) old) ≡ some bytes
      → set_string b.contents offset val ≡ some q
      → length bytes + int_size + int_size ≤ fm.block_size
      → (fm' : FileManager) × (l' : LogManager) × (write_string txn_id offset val true fm l b
          ≡ some (fm', l', changed_to q))
        × LogHolds fm' l' (bytes ∷ records)
  unfolding write_string log_string_if
  write_string-logged offset old val bytes q read encoded written room =
      let (fm', l', e, h', _, _, _) = append-LogHolds fm l records bytes h room in
      let logged : log_old_string txn_id offset fm l b ≡ some (fm', l', pos (l.latest_lsn + 1)) =
        unfold log_old_string write_to_log in rw (read, placed, encoded, e) refl in
      (
        fm',
        l',
        rw (logged, written)
            (ap (λ c. some (fm', l', c))
              (set_modified-pos txn_id (l.latest_lsn + 1) (record b { contents = q }))),
        h',
      )
