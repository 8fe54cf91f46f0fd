-- ===== src/Transaction/Rollback.antt =====
-- Rollback: the changes of a transaction to a block are taken back.
use simpledb.Prelude.{
  ℕ, ◌+◌, ◌≤◌, ◌≡◌, refl, ap, ◌∙◌, true, List, [], ◌∷◌, Option, some, arith, length,
}
use simpledb.Prelude.Bytes.{Bytes, ◌>>=◌, read_at, write_at}
use simpledb.Prelude.Int.{ℤ, pos, negsuc, int_eq_iff}
use simpledb.File.Block.{BlockId}
use simpledb.File.Manager.{FileManager}
use simpledb.File.Page.{Page, int_size, IsInt, encode_int, set_int}
use simpledb.Log.{LogManager}
use simpledb.Log.Records.{LogHolds}
use simpledb.Buffer
use simpledb.Buffer.{Buffer}
use simpledb.Recovery.{LogRecord, start, set_int_record, create_log_record, val_pos, txn_of}
use simpledb.Recovery.RoundTrip.{IsRecord, int_change, create_log_record-int_change}
use simpledb.Recovery.Undo.{do_rollback, rollback_turn}
use simpledb.Transaction.{log_if, write_int, undo_int, undo_record, undo_records}
use simpledb.Transaction.Restore.{set_int-restore, write_int-LogHolds}

-- A change of the value at an offset.
pub record Write : Type 0 where
  pub offset : ℕ
  pub old : ℤ
  pub val : ℤ

-- The calls of `SetInt`, in order.
abbrev pub write_ints :
    ℤ → List Write → FileManager → LogManager → Buffer → Option (FileManager × LogManager × Buffer)
write_ints txn_id [] fm l b = some (fm, l, b)
write_ints txn_id (w ∷ writes) fm l b = do
  (fm1, l1, b1) ← write_int txn_id w.offset w.val true fm l b
  write_ints txn_id writes fm1 l1 b1

-- Each change is inside of the page, and the page holds its old value when it comes.
abbrev pub AreWrites : ℤ → BlockId → List Write → Page → Type 0
AreWrites txn_id block [] page = Unit
AreWrites txn_id block (w ∷ writes) page =
    IsInt w.val
    × IsRecord (set_int_record txn_id block (pos w.offset) w.old)
    × (w.offset + int_size ≤ length page)
    × (read_at w.offset int_size page ≡ encode_int w.old)
    × AreWrites txn_id block writes (write_at w.offset (encode_int w.val) page)

module _ (txn_id : ℤ) (block : BlockId) where
  -- The records of the changes in front of a log, the newest first.
  abbrev logged : List Write → List Bytes → List Bytes
  logged [] records = records
  logged (w ∷ writes) records =
      logged writes (int_change txn_id block (pos w.offset) w.old ∷ records)

  abbrev undone : List Write → List LogRecord → List LogRecord
  undone [] records = records
  undone (w ∷ writes) records =
      undone writes (set_int_record txn_id block (pos w.offset) w.old ∷ records)

  do_rollback-logged :
      (writes : List Write) (page : Page) (log : List Bytes) (calls : List LogRecord)
      → AreWrites txn_id block writes page
      → do_rollback txn_id log ≡ some calls
      → do_rollback txn_id (logged writes log) ≡ some (undone writes calls)
  unfolding do_rollback rollback_turn txn_of
  do_rollback-logged [] page log calls h e = e
  do_rollback-logged (w ∷ writes) page log calls (_, fits, _, _, h) e =
      do_rollback-logged writes _ (int_change txn_id block (pos w.offset) w.old ∷ log) _ h (
        rw (do_rollback, create_log_record-int_change txn_id block (pos w.offset) w.old fits, e)
          (ground (arith, int_eq_iff txn_id txn_id)))

  -- The page behind the changes.
  abbrev written : List Write → Page → Page
  written [] page = page
  written (w ∷ writes) page = written writes (write_at w.offset (encode_int w.val) page)

  -- The calls for the changes bring the page back, and then the other calls come.
  undo_records-undone :
      (writes : List Write) (page : Page) (calls : List LogRecord) (fm : FileManager)
      (l : LogManager) (b : Buffer)
      → AreWrites txn_id block writes page
      → b.contents ≡ written writes page
      → (b' : Buffer) × (undo_records txn_id (undone writes calls) fm l b
          ≡ undo_records txn_id calls fm l b')
        × (b'.contents ≡ page)
  unfolding undo_records undo_record undo_int write_int log_if Buffer.set_modified
  undo_records-undone [] page calls fm l b h e = (b, refl, e)
  undo_records-undone (w ∷ writes) page calls fm l b (_, _, inside, holds, h) e =
      let r = set_int_record txn_id block (pos w.offset) w.old in
      let (b1, e1, same) = undo_records-undone writes _ (r ∷ calls) fm l b h e in
      let back : set_int b1.contents w.offset w.old ≡ some page =
        ap (λ p. set_int p w.offset w.old) same
        ∙ set_int-restore page w.offset w.old w.val inside holds in
      (
        Buffer.set_modified txn_id (negsuc 0) (record b1 { contents = page }),
        e1 ∙ rw (undo_records, undo_record, undo_int, write_int, log_if, back) refl,
        refl,
      )

  -- All changes are made, with their records in the log.
  write_ints-LogHolds :
      (writes : List Write) (fm : FileManager) (l : LogManager) (records : List Bytes) (b : Buffer)
      → LogHolds fm l records
      → b.block ≡ some block
      → val_pos block + int_size + int_size + int_size ≤ fm.block_size
      → AreWrites txn_id block writes b.contents
      → (fm' : FileManager) × (l' : LogManager) × (b' : Buffer) × (write_ints txn_id writes fm l b
          ≡ some (fm', l', b'))
        × LogHolds fm' l' (logged writes records)
        × (b'.contents ≡ written writes b.contents)
  write_ints-LogHolds [] fm l records b log placed room h = (fm, l, b, refl, log, refl)
  write_ints-LogHolds (w ∷ writes) fm l records b log placed room (new, fits, inside, holds, h) =
      let (fm1, l1, e1, log1, _, size) =
        write_int-LogHolds fm l records b block txn_id w.offset w.old w.val log placed new fits
          inside holds room in
      let b1 = record b {
        txn_id = txn_id;
        lsn = pos (l.latest_lsn + 1);
        contents = write_at w.offset (encode_int w.val) b.contents;
      } in
      let (fm2, l2, b2, e2, log2, same) =
        write_ints-LogHolds writes fm1 l1 _ b1 log1 placed (omega (arith, room, size)) h in
      (fm2, l2, b2, rw e1 e2, log2, same)

-- A transaction that has started and then changes values of a block, any number of them and any
-- number of times, can do so, and a rollback then finds calls of Undo in its log that bring the
-- contents of the block back to what they were.
pub rollback-write_ints :
    (txn_id : ℤ) (block : BlockId) (writes : List Write) (fm : FileManager) (l : LogManager)
    (started : Bytes) (older : List Bytes) (b : Buffer)
    → LogHolds fm l (started ∷ older)
    → create_log_record started ≡ some (start txn_id)
    → b.block ≡ some block
    → val_pos block + int_size + int_size + int_size ≤ fm.block_size
    → AreWrites txn_id block writes b.contents
    → (fm' : FileManager) × (l' : LogManager) × (b' : Buffer) × (log : List Bytes) × (calls : List
        LogRecord)
      × (b'' : Buffer) × (write_ints txn_id writes fm l b ≡ some (fm', l', b'))
      × LogHolds fm' l' log
      × (do_rollback txn_id log ≡ some calls)
      × (undo_records txn_id calls fm' l' b' ≡ some (fm', l', b''))
      × (b''.contents ≡ b.contents)
unfolding do_rollback rollback_turn txn_of undo_records
rollback-write_ints txn_id block writes fm l started older b log begun placed room h =
    let (fm', l', b', e, log', same) =
      write_ints-LogHolds txn_id block writes fm l (started ∷ older) b log placed room h in
    let stops : do_rollback txn_id (started ∷ older) ≡ some [] =
      rw (do_rollback, begun) (ground (arith, int_eq_iff txn_id txn_id)) in
    let (b'', undo, restored) =
      undo_records-undone txn_id block writes b.contents [] fm' l' b' h same in
    (
      fm',
      l',
      b',
      logged txn_id block writes (started ∷ older),
      undone txn_id block writes [],
      b'',
      e,
      log',
      do_rollback-logged txn_id block writes b.contents (started ∷ older) [] h stops,
      undo,
      restored,
    )
