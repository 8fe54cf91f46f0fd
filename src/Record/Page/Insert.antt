-- ===== src/Record/Page/Insert.antt =====
-- src/record/record_page.cpp: `InsertAfter`.
use simpledb.Prelude.{◌+◌, List, ◌∷◌, ℕ, ◌≡◌, ◌≢◌, refl, true, some, arith, ◌≤◌}
use simpledb.Prelude.Int.{ℤ, pos, negsuc}
use simpledb.Prelude.Bytes.{Bytes}
use simpledb.File.Block.{BlockId}
use simpledb.File.Manager.{FileManager}
use simpledb.File.Page.{Page, int_size}
use simpledb.Log.{LogManager}
use simpledb.Log.Records.{LogHolds}
use simpledb.Buffer.{Buffer}
use simpledb.Recovery.{val_pos}
use simpledb.Recovery.RoundTrip.{int_change}
use simpledb.Record.Layout.{Layout, create_layout}
use simpledb.Record.Layout.Bounds.{IsSized}
use simpledb.Record.Page.{is_valid_slot, get_flag, insert_after, mark_used, empty, used}
use simpledb.Record.Page.Positions.{start_of, layout-IsPacked}
use simpledb.Record.Page.Flags.{KeepsFields, set_flag_lem}
use simpledb.Record.Page.Slots.{
  IsFirst, Answers, at_slot, nowhere, slot_before, search_empty-Answers,
}

-- What `InsertAfter` does for the transaction `txn_id`, on the buffer `b` of the block `block` with a
-- log that holds `records`: it marks the first empty slot from `start` on and logs that, or answers
-- -1 for a page without one, and then it leaves the buffer and the log.
pub data Inserts (l : Layout) (start : ℕ) (txn_id : ℤ) (log : LogManager) (records : List Bytes)
    (b : Buffer) (block : BlockId) (r : ℤ) (fm' : FileManager) (log' : LogManager) (b' : Buffer)
    : Type 0 where
  inserted :
      (slot : ℕ) (q : Page)
      → r ≡ pos slot
      → IsFirst l b.contents start empty slot
      → b' ≡ record b { contents = q; txn_id = txn_id; lsn = pos (log.latest_lsn + 1) }
      → get_flag l slot q ≡ some used
      → KeepsFields l slot b.contents q
      → LogHolds fm' log' (int_change txn_id block (pos (start_of l slot)) empty ∷ records)
      → Inserts l start txn_id log records b block r fm' log' b'
  full :
      r ≡ negsuc 0
      → ((j : ℕ)
          → start ≤ j
          → is_valid_slot l b.contents j ≡ true
          → get_flag l j b.contents ≢ some empty)
      → b' ≡ b
      → LogHolds fm' log' records
      → Inserts l start txn_id log records b block r fm' log' b'

module _ (l : Layout) (all : IsSized l.schema) (made : create_layout l.schema ≡ some l) (start : ℕ)
    (txn_id : ℤ) (fm : FileManager) (log : LogManager) (records : List Bytes) (b : Buffer)
    (block : BlockId) (h : LogHolds fm log records) (placed : b.block ≡ some block)
    (small : val_pos block + int_size + int_size + int_size ≤ fm.block_size) where
  mark_used-Inserts :
      (r : ℤ)
      → Answers l b.contents start empty r
      → (r' : ℤ) × (fm' : FileManager) × (log' : LogManager) × (b' : Buffer) × (mark_used l r txn_id
            fm log b
          ≡ some (r', fm', log', b'))
        × Inserts l start txn_id log records b block r' fm' log' b'
  unfolding mark_used
  mark_used-Inserts r (at_slot slot e first) =
      let (whole, packed) = layout-IsPacked l all made in
      let (fm', log', q, marked, flag, kept, h') =
        set_flag_lem l whole packed txn_id fm log records b block h placed slot used empty
          first.valid (omega arith) first.here small in
      (
        pos slot,
        fm',
        log',
        record b { contents = q; txn_id = txn_id; lsn = pos (log.latest_lsn + 1) },
        rw (e, marked) refl,
        inserted slot q refl first refl flag kept h',
      )
  mark_used-Inserts r (nowhere e none_later) =
      (negsuc 0, fm, log, b, rw e refl, full refl none_later refl h)

  -- In a layout of a schema without negative lengths, and with a log whose blocks have room for the
  -- record of a flag, `InsertAfter` always returns. It returns the first empty slot behind the given
  -- one, which is used afterwards, while all else is left and the log holds a record of the change in
  -- front; and -1 when no slot behind it is empty, and then the buffer is left and the log holds what
  -- it held.
  pub insert_after-Inserts :
      (r : ℤ) × (fm' : FileManager) × (log' : LogManager) × (b' : Buffer) × (insert_after l
          (slot_before start)
          txn_id
          fm
          log
          b
        ≡ some (r, fm', log', b'))
      × Inserts l start txn_id log records b block r fm' log' b'
  unfolding insert_after
  insert_after-Inserts =
      let (r, e, answers) = search_empty-Answers l all made start b.contents in
      let (r', fm', log', b', e', inserts) = mark_used-Inserts r answers in
      (r', fm', log', b', rw e e', inserts)
