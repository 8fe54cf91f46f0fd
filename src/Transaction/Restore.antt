-- ===== src/Transaction/Restore.antt =====
-- What `SetInt` logs is enough to take it back.
use simpledb.Prelude.{
  sym, ℕ, zero, suc, ◌+◌, ◌≤◌, ◌≡◌, refl, ap, ◌∙◌, true, List, [], ◌∷◌, some, arith, length,
}
use simpledb.Prelude.Bytes.{Bytes, read_at, write_at, length-write_at}
use simpledb.Prelude.Int.{ℤ, pos}
use simpledb.File.Block.{BlockId}
use simpledb.File.Manager.{FileManager}
use simpledb.File.Page.{Page, int_size, IsInt, get_int, set_int, encode_int, decode_int-encode_int}
use simpledb.File.Page.Laws.{length-encode_int, get_int-set_int}
use simpledb.Log.{LogManager}
use simpledb.Log.Append.{append-LogHolds}
use simpledb.Log.Records.{LogHolds}
use simpledb.Buffer
use simpledb.Buffer.{Buffer}
use simpledb.Recovery.{set_int_record, write_to_log, create_log_record, val_pos}
use simpledb.Recovery.RoundTrip.{
  IsRecord, int_change, record_bytes-int_change, length-int_change, create_log_record-int_change,
}
use simpledb.Transaction.{log_old_int, log_if, write_int, undo_int}

-- Writing back what was read takes a write of the same length back.
write_at-restore :
    (o : ℕ) (old new page : Bytes)
    → length old ≡ length new
    → o + length old ≤ length page
    → read_at o (length old) page ≡ old
    → write_at o old (write_at o new page) ≡ page
unfolding write_at read_at
write_at-restore zero [] [] page e h same = refl
write_at-restore zero [] (_ ∷ _) page e h same = absurd (omega arith)
write_at-restore zero (_ ∷ _) [] page e h same = absurd (omega arith)
write_at-restore zero (x ∷ old) (y ∷ new) [] e h same = absurd (omega arith)
write_at-restore zero (x ∷ old) (y ∷ new) (z ∷ page) e h same =
    let head : x ≡ z = cc in
    let tail : read_at 0 (length old) page ≡ old = cc in
    ap (λ c. c ∷ write_at 0 old (write_at 0 new page)) head
    ∙ ap (◌∷◌ z) (write_at-restore zero old new page (omega arith) (omega arith) tail)
write_at-restore (suc o) old new [] e h same = absurd (omega arith)
write_at-restore (suc o) old new (z ∷ page) e h same =
    ap (◌∷◌ z) (write_at-restore o old new page e (omega arith) same)

-- `SetInt` of the old value takes a `SetInt` back.
pub set_int-restore :
    (page : Page) (offset : ℕ) (old val : ℤ)
    → offset + int_size ≤ length page
    → read_at offset int_size page ≡ encode_int old
    → set_int (write_at offset (encode_int val) page) offset old ≡ some page
unfolding set_int
set_int-restore page offset old val inside holds =
    let sizes = length-encode_int in
    let changed = write_at offset (encode_int val) page in
    let kept : length changed ≡ length page =
      length-write_at offset (encode_int val) page (omega (arith, sizes val, inside)) in
    let same : write_at offset (encode_int old) changed ≡ page =
      write_at-restore offset (encode_int old) (encode_int val) page
        (omega (arith, sizes old, sizes val)) (omega (arith, sizes old, inside))
        (ap (λ n. read_at offset n page) (sizes old) ∙ holds) in
    rw same (ground (arith, kept, inside))

-- A number of the log, as the sequence number of a buffer.
pub set_modified-pos :
    (txn_id : ℤ) (n : ℕ) (b : Buffer)
    → Buffer.set_modified txn_id (pos n) b ≡ record b { txn_id = txn_id; lsn = pos n }
unfolding Buffer.set_modified
set_modified-pos txn_id n b = ground arith

module _ (fm : FileManager) (l : LogManager) (records : List Bytes) (b : Buffer) (block : BlockId)
    (txn_id : ℤ) (offset : ℕ) (old val : ℤ) (h : LogHolds fm l records)
    (placed : b.block ≡ some block) (new_fits : IsInt val)
    (fits : IsRecord (set_int_record txn_id block (pos offset) old))
    (inside : offset + int_size ≤ length b.contents)
    (holds : read_at offset int_size b.contents ≡ encode_int old)
    (room : val_pos block + int_size + int_size + int_size ≤ fm.block_size) where
  abbrev changed : Page
  changed = write_at offset (encode_int val) b.contents

  old_read : get_int b.contents offset ≡ some old
  unfolding get_int
  old_read =
      let (_, _, _, _, old_fits) = fits in
      rw holds (ground (arith, inside, decode_int-encode_int old old_fits))

  new_set : set_int b.contents offset val ≡ some changed
  unfolding set_int
  new_set = ground (arith, inside)

  new_read : get_int changed offset ≡ some val
  new_read = get_int-set_int b.contents offset val new_fits new_set

  old_set : set_int changed offset old ≡ some b.contents
  old_set = set_int-restore b.contents offset old val inside holds

  -- The change goes to the buffer, and its record with the old value to the front of the log.
  pub write_int-LogHolds :
      (fm' : FileManager) × (l' : LogManager) × (write_int txn_id offset val true fm l b
        ≡ some (
          fm',
          l',
          record b { txn_id = txn_id; lsn = pos (l.latest_lsn + 1); contents = changed },
        ))
      × LogHolds fm' l' (int_change txn_id block (pos offset) old ∷ records)
      × (l'.latest_lsn ≡ l.latest_lsn + 1)
      × (fm'.block_size ≡ fm.block_size)
  unfolding write_int log_if log_old_int write_to_log
  write_int-LogHolds =
      let bytes = int_change txn_id block (pos offset) old in
      let (fm', l', e, h', lsn, _, size) =
        append-LogHolds fm l records bytes h
          (omega (arith, length-int_change txn_id block (pos offset) old)) in
      let logged : log_old_int txn_id offset fm l b ≡ some (fm', l', pos (l.latest_lsn + 1)) =
        rw
          (
            log_old_int,
            old_read,
            placed,
            write_to_log,
            record_bytes-int_change txn_id block (pos offset) old,
            e,
          )
          refl in
      (
        fm',
        l',
        rw (write_int, log_if, logged, new_set)
            (ap (λ x. some (fm', l', x))
              (set_modified-pos txn_id (l.latest_lsn + 1) (record b { contents = changed }))),
        h',
        lsn,
        size,
      )

  -- `SetInt` of a value of a buffer's block returns. In front of all that the log held it then holds
  -- a record that is read as the change with the old value, the buffer has the sequence number of
  -- that record, and Undo with the record's offset and value brings the contents back.
  pub write_int-undo_int :
      (fm' : FileManager) × (l' : LogManager) × (b' : Buffer) × (bytes : Bytes) × (write_int txn_id
          offset val true fm l b
        ≡ some (fm', l', b'))
      × LogHolds fm' l' (bytes ∷ records)
      × (create_log_record bytes ≡ some (set_int_record txn_id block (pos offset) old))
      × (b'.lsn ≡ pos l'.latest_lsn)
      × (get_int b'.contents offset ≡ some val)
      × (undo_int txn_id offset old fm' l' b' ≡ some (fm', l', record b' { contents = b.contents }))
  unfolding undo_int write_int log_if Buffer.set_modified
  write_int-undo_int =
      let (fm', l', e, h', lsn, _) = write_int-LogHolds in
      (
        fm',
        l',
        record b { txn_id = txn_id; lsn = pos (l.latest_lsn + 1); contents = changed },
        int_change txn_id block (pos offset) old,
        e,
        h',
        create_log_record-int_change txn_id block (pos offset) old fits,
        ap pos (sym lsn),
        new_read,
        rw old_set refl,
      )
