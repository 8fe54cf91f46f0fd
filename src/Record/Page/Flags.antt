-- ===== src/Record/Page/Flags.antt =====
-- src/record/record_page.cpp: changes of the flag of a slot, and `InsertAfter`.
use simpledb.Prelude.{
  ℕ, List, ◌∷◌, ◌+◌, ◌≤◌, ◌≡◌, ◌≢◌, ◌∙◌, refl, inl, inr, true, some, arith, length, Option-cases,
}
use simpledb.Prelude.Bytes.{Bytes}
use simpledb.Prelude.Int.{ℤ, pos}
use simpledb.Prelude.Text.{Text}
use simpledb.File.Page.{Page, int_size, IsInt}
use simpledb.File.Page.Laws.{get_int-set_int}
use simpledb.File.Block.{BlockId}
use simpledb.File.Manager.{FileManager}
use simpledb.Log.{LogManager}
use simpledb.Log.Records.{LogHolds}
use simpledb.Buffer.{Buffer}
use simpledb.Recovery.{val_pos}
use simpledb.Recovery.RoundTrip.{int_change}
use simpledb.Transaction.Logged.{write_int-logged}
use simpledb.Record.Layout.{Layout, get_offset, length_in_bytes}
use simpledb.Record.Layout.Bounds.{IsPacked}
use simpledb.Record.Page.{is_valid_slot, field_pos, get_int, get_string, get_flag, set_flag}
use simpledb.Record.Page.Frame.{Frame, Clear, set_int-Frame, get_int-Frame, get_string-Frame}
use simpledb.Record.Page.Fields.{flag-Clear, field_at, Clear-shrink, slots_apart, is_valid_slot_lem}
use simpledb.Record.Page.Positions.{
  width, start_of, offset_lem, get_flag-at, get_int-at, get_string-at,
}

-- What a change of the flag of the slot `k` leaves: the other flags, the integers of all fields,
-- and the strings that fit into their fields.
pub record KeepsFields (l : Layout) (k : ℕ) (p q : Page) : Type 0 where
  pub same_size : length q ≡ length p
  pub flags : (j : ℕ) → j ≢ k → get_flag l j q ≡ get_flag l j p
  pub ints : (j : ℕ) (g : Text) → get_int l j g q ≡ get_int l j g p
  pub strings :
      (j : ℕ) (g : Text) (n : ℕ) (s : Bytes)
      → length_in_bytes g l.schema ≡ some (pos n)
      → int_size + length s ≤ n
      → get_string l j g p ≡ some s
      → get_string l j g q ≡ some s

Clear-sym : (a n b m : ℕ) → Clear a (a + n) b m → Clear b (b + m) a n
Clear-sym a n b m (inl before) = inr before
Clear-sym a n b m (inr after) = inl after

module _ (l : Layout) (whole : l.slot_size ≡ pos (width l))
    (packed : IsPacked l.schema l.offsets (width l)) where
  slot_flags-Clear :
      (j k : ℕ) → j ≢ k → Clear (start_of l k) (start_of l k + int_size) (start_of l j) int_size
  slot_flags-Clear j k other =
      let room = packed.room in
      elim (slots_apart l j k) [
        | inl same ↦ absurd (other same)
        | inr (inl before) ↦ inl (omega arith)
        | inr (inr after) ↦ inr (omega arith)
      ]

  Frame-KeepsFields :
      (k : ℕ) {p q : Page}
      → Frame p q (start_of l k) (start_of l k + int_size)
      → KeepsFields l k p q
  unfolding get_int get_string field_pos
  Frame-KeepsFields k {p} {q} frame = record {
    same_size = frame.same_size;
    flags = λ j other.
        rw (get_flag-at l whole j q, get_flag-at l whole j p)
          (get_int-Frame frame (start_of l j) (slot_flags-Clear j k other));
    ints = λ j g. elim (Option-cases (get_offset g l)) [
      | inl missing ↦ rw missing refl
      | inr (z, at') ↦
          let (o, m, at, sized, lo, hi, four) = field_at l whole packed g z at' in
          rw (get_int-at l whole j g q at, get_int-at l whole j g p at)
            (get_int-Frame frame (start_of l j + o) (
              Clear-shrink four (Clear-sym _ _ _ _ (flag-Clear l whole packed k j g o m at sized))))
    ];
    strings = λ j g m s sized fits e. elim (Option-cases (get_offset g l)) [
      | inl missing ↦ absurd (ground arith)
      | inr (z, at') ↦
          let (o, m', at, _, lo, hi, four) = field_at l whole packed g z at' in
          rw (get_string-at l whole j g q at) (
            get_string-Frame frame (start_of l j + o) (rw (get_string-at l whole j g p at) at e) (
              Clear-shrink fits (Clear-sym _ _ _ _ (flag-Clear l whole packed k j g o m at sized))))
    ];
  }

  -- `SetFlag`, and with it `Delete`, on a valid slot: the flag is read back, all else is left, and
  -- the log holds a record of the old flag in front.
  pub set_flag_lem :
      (txn_id : ℤ) (fm : FileManager) (log : LogManager) (records : List Bytes) (b : Buffer)
      (block : BlockId) (h : LogHolds fm log records) (placed : b.block ≡ some block) (k : ℕ)
      (flag old : ℤ)
      → is_valid_slot l b.contents k ≡ true
      → IsInt flag
      → get_flag l k b.contents ≡ some old
      → val_pos block + int_size + int_size + int_size ≤ fm.block_size
      → (fm' : FileManager) × (log' : LogManager) × (q : Page) × (set_flag l k flag txn_id fm log b
          ≡ some (
            fm',
            log',
            record b { contents = q; txn_id = txn_id; lsn = pos (log.latest_lsn + 1) },
          ))
        × (get_flag l k q ≡ some flag)
        × KeepsFields l k b.contents q
        × LogHolds fm' log' (int_change txn_id block (pos (start_of l k)) old ∷ records)
  unfolding set_flag
  set_flag_lem txn_id fm log records b block h placed k flag old valid fits read small =
      let p = b.contents in
      let room = packed.room in
      let (q, e, frame) =
        set_int-Frame p (start_of l k) flag
          (omega (arith, is_valid_slot_lem l whole packed p k valid)) in
      let (fm', log', e', h') =
        write_int-logged txn_id fm log records b block h placed (start_of l k) old flag q
          (rw (get_flag-at l whole k p) at read) e small in
      (
        fm',
        log',
        q,
        rw (offset_lem l whole k) e',
        get_flag-at l whole k q ∙ get_int-set_int p (start_of l k) flag fits e,
        Frame-KeepsFields k frame,
        h',
      )
