-- ===== src/Record/Page/Fields.antt =====
-- src/record/record_page.cpp: the values of fields, when others are changed.
use simpledb.Prelude.{
  ap, ◌∙◌, List, ◌∷◌, ℕ, suc, ◌+◌, ◌≤◌, ◌<◌, ◌^◌, ◌≡◌, ◌≢◌, refl, ◌⊎◌, inl, inr, true, some, arith,
  length, leb→le, Option-cases, dec_lt,
}
use simpledb.Prelude.Bytes.{Bytes}
use simpledb.Prelude.Int.{ℤ, pos}
use simpledb.Prelude.Text.{Text}
use simpledb.File.Page.{Page, int_size, IsInt}
use simpledb.File.Page
use simpledb.File.Page.Laws.{get_int-set_int, get_bytes-set_bytes}
use simpledb.File.Block.{BlockId}
use simpledb.File.Manager.{FileManager}
use simpledb.Log.{LogManager}
use simpledb.Buffer.{Buffer}
use simpledb.Log.Records.{LogHolds}
use simpledb.Recovery.{set_string_record, record_bytes, val_pos}
use simpledb.Recovery.RoundTrip.{int_change}
use simpledb.Transaction.Logged.{write_int-logged, write_string-logged}
use simpledb.Record.Layout.{Layout, get_offset, length_in_bytes, create_layout}
use simpledb.Record.Layout.Bounds.{IsPacked, IsSized}
use simpledb.Record.Page.{
  is_valid_slot, field_pos, get_int, get_string, set_int, set_string, get_flag,
}
use simpledb.Record.Page.Frame.{
  Frame, Clear, Frame-widen, set_int-Frame, set_string-Frame, get_int-Frame, get_string-Frame,
}
use simpledb.Record.Page.Positions.{
  width, start_of, layout-IsPacked, is_valid_slot-at, field_pos_lem, get_flag-at, get_int-at,
  get_string-at,
}

-- What a change of the field `f` of the slot `k` leaves: the flags, the integers of all other
-- fields, and their strings that fit into their fields.
pub record KeepsOthers (l : Layout) (k : ℕ) (f : Text) (p q : Page) : Type 0 where
  pub same_size : length q ≡ length p
  pub flags : (j : ℕ) → get_flag l j q ≡ get_flag l j p
  pub ints : (j : ℕ) (g : Text) → (j ≢ k) ⊎ (g ≢ f) → get_int l j g q ≡ get_int l j g p
  pub strings :
      (j : ℕ) (g : Text) (n : ℕ) (s : Bytes)
      → (j ≢ k) ⊎ (g ≢ f)
      → length_in_bytes g l.schema ≡ some (pos n)
      → int_size + length s ≤ n
      → get_string l j g p ≡ some s
      → get_string l j g q ≡ some s

offset-suc-le : (l : Layout) (j k : ℕ) → j < k → start_of l j + width l ≤ start_of l k
offset-suc-le l j k h = grind arith

-- Slots follow one another.
pub slots_apart :
    (l : Layout) (j k : ℕ)
    → (j ≡ k) ⊎ (start_of l j + width l ≤ start_of l k) ⊎ (start_of l k + width l ≤ start_of l j)
slots_apart l j k = elim (dec_lt j k) [
  | yes before ↦ inr (inl (offset-suc-le l j k before))
  | no late ↦ elim (dec_lt k j) [
    | yes after ↦ inr (inr (offset-suc-le l k j after))
    | no early ↦ inl (omega arith)
  ]
]

pub Clear-shrink : {a b o n m : ℕ} → n ≤ m → Clear a b o m → Clear a b o n
Clear-shrink h (inl before) = inl (omega arith)
Clear-shrink h (inr after) = inr after

module _ (l : Layout) (whole : l.slot_size ≡ pos (width l))
    (packed : IsPacked l.schema l.offsets (width l)) where
  -- Different fields of the slots of a page are clear of each other.
  field-Clear :
      (j k : ℕ) (f g : Text) (o p n m : ℕ)
      → (j ≢ k) ⊎ (g ≢ f)
      → get_offset f l ≡ some (pos o)
      → length_in_bytes f l.schema ≡ some (pos n)
      → get_offset g l ≡ some (pos p)
      → length_in_bytes g l.schema ≡ some (pos m)
      → Clear (start_of l k + o) (start_of l k + o + n) (start_of l j + p) m
  unfolding get_offset
  field-Clear j k f g o p n m other at sized at' sized' =
      let (o1, n1, e, e1, lo, hi) = packed.inside f (pos o) at in
      let (p1, m1, e', e1', lo', hi') = packed.inside g (pos p) at' in
      let room : o + n ≤ width l = ground arith in
      let room' : p + m ≤ width l = ground arith in
      elim (slots_apart l j k) [
        | inl same ↦ elim other [
          | inl differ ↦ absurd (differ same)
          | inr differ ↦ elim (packed.apart g f p o m n differ at' at sized' sized) [
            | inl before ↦ inl (rw same (omega arith))
            | inr after ↦ inr (rw same (omega arith))
          ]
        ]
        | inr (inl before) ↦ inl (omega arith)
        | inr (inr after) ↦ inr (omega arith)
      ]

  pub flag-Clear :
      (j k : ℕ) (f : Text) (o n : ℕ)
      → get_offset f l ≡ some (pos o)
      → length_in_bytes f l.schema ≡ some (pos n)
      → Clear (start_of l k + o) (start_of l k + o + n) (start_of l j) int_size
  unfolding get_offset
  flag-Clear j k f o n at sized =
      let (o1, n1, e, e1, lo, hi) = packed.inside f (pos o) at in
      let room : o + n ≤ width l = ground arith in
      let low : int_size ≤ o = ground arith in
      elim (slots_apart l j k) [
        | inl same ↦ inl (rw same (omega arith))
        | inr (inl before) ↦ inl (omega arith)
        | inr (inr after) ↦ inr (omega arith)
      ]

  -- A field of the layout: its place and its length.
  pub field_at :
      (f : Text) (z : ℤ)
      → get_offset f l ≡ some z
      → (o : ℕ) × (n : ℕ) × (get_offset f l ≡ some (pos o))
        × (length_in_bytes f l.schema ≡ some (pos n))
        × (int_size ≤ o)
        × (o + n ≤ width l)
        × (int_size ≤ n)
  unfolding get_offset
  field_at f z at =
      let (o, n, e, sized, lo, hi) = packed.inside f z at in
      (o, n, at ∙ ap some e, sized, lo, hi, packed.wide f n sized)

  -- A write inside of a field keeps the others.
  pub Frame-KeepsOthers :
      (k : ℕ) (f : Text) (o n : ℕ) {p q : Page}
      → get_offset f l ≡ some (pos o)
      → length_in_bytes f l.schema ≡ some (pos n)
      → Frame p q (start_of l k + o) (start_of l k + o + n)
      → KeepsOthers l k f p q
  unfolding get_int get_string field_pos
  Frame-KeepsOthers k f o n {p} {q} at sized frame = record {
    same_size = frame.same_size;
    flags = λ j.
        rw (get_flag-at l whole j q, get_flag-at l whole j p)
          (get_int-Frame frame (start_of l j) (flag-Clear j k f o n at sized));
    ints = λ j g other. elim (Option-cases (get_offset g l)) [
      | inl missing ↦ rw missing refl
      | inr (z, at') ↦
          let (o', m, at1, sized', lo, hi, four) = field_at g z at' in
          rw (get_int-at l whole j g q at1, get_int-at l whole j g p at1)
            (get_int-Frame frame (start_of l j + o')
              (Clear-shrink four (field-Clear j k f g o o' n m other at sized at1 sized')))
    ];
    strings = λ j g m s other sized' fits e. elim (Option-cases (get_offset g l)) [
      | inl missing ↦ absurd (ground arith)
      | inr (z, at') ↦
          let (o', m', at1, sized1, lo, hi, four) = field_at g z at' in
          rw (get_string-at l whole j g q at1) (
            get_string-Frame frame (start_of l j + o') (rw (get_string-at l whole j g p at1) at e)
              (Clear-shrink fits (field-Clear j k f g o o' n m other at sized at1 sized')))
    ];
  }

  -- A valid slot ends inside of the block.
  pub is_valid_slot_lem :
      (p : Page) (k : ℕ) → is_valid_slot l p k ≡ true → start_of l k + width l ≤ length p
  is_valid_slot_lem p k h =
      let e = leb→le (start_of l (suc k)) (length p) (rw (is_valid_slot-at l whole p k) at h) in
      grind arith

  -- The range of a field of a valid slot.
  pub field_inside :
      (k : ℕ) (f : Text) (p : Page) {o n : ℕ}
      → is_valid_slot l p k ≡ true
      → get_offset f l ≡ some (pos o)
      → length_in_bytes f l.schema ≡ some (pos n)
      → start_of l k + o + n ≤ length p
  unfolding get_offset
  field_inside k f p {o} {n} valid at sized =
      let (o', n', e, e', lo, hi) = packed.inside f (pos o) at in
      let room : o + n ≤ width l = ground arith in omega (arith, is_valid_slot_lem p k valid)

module _ (l : Layout) (all : IsSized l.schema) (made : create_layout l.schema ≡ some l) (txn_id : ℤ)
    (fm : FileManager) (log : LogManager) (records : List Bytes) (b : Buffer) (block : BlockId)
    (h : LogHolds fm log records) (placed : b.block ≡ some block) (k : ℕ) (f : Text) {o n : ℕ}
    (valid : is_valid_slot l b.contents k ≡ true) (at : get_offset f l ≡ some (pos o))
    (sized : length_in_bytes f l.schema ≡ some (pos n)) where
  -- `SetInt` on a field of a valid slot: the value is read back, and the flags and the other
  -- fields are left. The log holds a record of the old value in front.
  pub set_int_lem :
      (v old : ℤ)
      → IsInt v
      → get_int l k f b.contents ≡ some old
      → val_pos block + int_size + int_size + int_size ≤ fm.block_size
      → (fm' : FileManager) × (log' : LogManager) × (q : Page) × (set_int l k f v txn_id fm log b
          ≡ some (
            fm',
            log',
            record b { contents = q; txn_id = txn_id; lsn = pos (log.latest_lsn + 1) },
          ))
        × (get_int l k f q ≡ some v)
        × KeepsOthers l k f b.contents q
        × LogHolds fm' log' (int_change txn_id block (pos (start_of l k + o)) old ∷ records)
  unfolding set_int
  set_int_lem v old fits read room =
      let (whole, packed) = layout-IsPacked l all made in
      let p = b.contents in
      let four = packed.wide f n sized in
      let (q, e, frame) =
        set_int-Frame p (start_of l k + o) v
          (omega (arith, field_inside l whole packed k f p valid at sized)) in
      let (fm', log', e', h') =
        write_int-logged txn_id fm log records b block h placed (start_of l k + o) old v q
          (rw (get_int-at l whole k f p at) at read) e room in
      (
        fm',
        log',
        q,
        rw (field_pos_lem l whole k f at) e',
        get_int-at l whole k f q at ∙ get_int-set_int p (start_of l k + o) v fits e,
        Frame-KeepsOthers l whole packed k f o n at sized
            (Frame-widen (omega arith) (omega arith) frame),
        h',
      )

  -- In a layout of a schema without negative lengths, with a log that holds any records, and on a
  -- field of a valid slot that holds a string whose log record can be made and fits into a block of
  -- the log: `SetString` succeeds with a string that fits into the field and whose length fits into
  -- an `int`. The string is then read back; the flags of all slots, the integers of the other fields
  -- and their strings that fit are left; the buffer is the transaction's, with the next sequence
  -- number; and the log holds the record of the old string in front of all that it held.
  pub set_string_lem :
      (v old bytes : Bytes)
      → int_size + length v ≤ n
      → length v < 2 ^ 31
      → get_string l k f b.contents ≡ some old
      → record_bytes (set_string_record txn_id block (pos (start_of l k + o)) old) ≡ some bytes
      → length bytes + int_size + int_size ≤ fm.block_size
      → (fm' : FileManager) × (log' : LogManager) × (q : Page) × (set_string l k f v txn_id fm log b
          ≡ some (
            fm',
            log',
            record b { contents = q; txn_id = txn_id; lsn = pos (log.latest_lsn + 1) },
          ))
        × (get_string l k f q ≡ some v)
        × KeepsOthers l k f b.contents q
        × LogHolds fm' log' (bytes ∷ records)
  unfolding set_string Page.get_string Page.set_string
  set_string_lem v old bytes room fits read encoded small =
      let (whole, packed) = layout-IsPacked l all made in
      let p = b.contents in
      let (q, e, frame) =
        set_string-Frame p (start_of l k + o) v
          (omega (arith, field_inside l whole packed k f p valid at sized)) in
      let (fm', log', e', h') =
        write_string-logged txn_id fm log records b block h placed (start_of l k + o) old v bytes q
          (rw (get_string-at l whole k f p at) at read) encoded e small in
      (
        fm',
        log',
        q,
        rw (field_pos_lem l whole k f at) e',
        get_string-at l whole k f q at ∙ get_bytes-set_bytes p (start_of l k + o) v fits e,
        Frame-KeepsOthers l whole packed k f o n at sized
            (Frame-widen (omega arith) (omega arith) frame),
        h',
      )
