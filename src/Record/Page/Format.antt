-- ===== src/Record/Page/Format.antt =====
-- src/record/record_page.cpp: `Format`.
use simpledb.Prelude.{
  if◌then◌else◌, false, ℕ, zero, suc, ◌+◌, ◌≤◌, ◌<◌, ◌≡◌, ◌≢◌, ◌∙◌, refl, ◌⊎◌, inl, inr, true, List,
  [], ◌∷◌, some, arith, length, Bool-cases, ℕ_discrete, Bool,
}
use simpledb.Prelude.Bytes.{read_at}
use simpledb.Prelude.Int.{ℤ, pos, int_eq}
use simpledb.Prelude.Text.{Text, text_mem, text_eq, text_eq_iff, text_eq_self}
use simpledb.File.Page.{Page, int_size, IsInt}
use simpledb.File.Page
use simpledb.File.Page.Laws.{get_int-set_int, get_bytes_lem, get_bytes-set_bytes, get_bytes-some}
use simpledb.Record.Schema.{integer, field_type}
use simpledb.Record.Layout.{Layout, create_layout}
use simpledb.Record.Layout.Bounds.{IsSized, IsPacked, create_layout-known}
use simpledb.Record.Page.{
  is_valid_slot, get_int, get_string, get_flag, empty, format_field, format_fields, format_slot,
  format_from, format, rounds,
}
use simpledb.Record.Page.Frame.{
  Frame, Frame-trans, Clear, Frame-widen, set_int-Frame, get_int-Frame, set_string-Frame,
  Frame-refl,
}
use simpledb.Record.Page.Fields.{
  KeepsOthers, Frame-KeepsOthers, field_inside, field_at, slots_apart, is_valid_slot_lem,
}
use simpledb.Record.Page.Positions.{
  width, start_of, layout-IsPacked, get_flag-at, clear_flag-at, get_int-at, get_string-at,
  field_pos_lem,
}
use simpledb.Record.Page.Slots.{slot-lt, is_valid_slot-le}

-- The flag of the slot and the first four bytes of its fields are zero.
pub record IsBlank (l : Layout) (k : ℕ) (p : Page) : Type 0 where
  pub flag : get_flag l k p ≡ some empty
  pub fields : (f : Text) → text_mem f l.schema.fields ≡ true → get_int l k f p ≡ some (pos 0)

-- `Format` writes four zero bytes to a field of either type.
zero_write :
    (b : Bool) (p : Page) (o : ℕ)
    → o + int_size ≤ length p
    → (q : Page) × ((if b then Page.set_int p o (pos 0) else Page.set_string p o []) ≡ some q)
      × (Page.get_int q o ≡ some (pos 0))
      × Frame p q o (o + int_size)
zero_write true p o h =
    let (q, e, frame) = set_int-Frame p o (pos 0) h in
    (q, e, get_int-set_int p o (pos 0) (omega arith) e, frame)
zero_write false p o h =
    let (q, e, frame) = set_string-Frame p o [] (omega arith) in
    let (zeroes, _, _) =
      get_bytes_lem q o (get_bytes-set_bytes p o [] (omega arith) (unfold Page.set_string in e)) in
    (q, e, zeroes, Frame-widen (omega arith) (omega arith) frame)

is_valid_slot-same_size :
    (l : Layout) (k : ℕ) (p q : Page)
    → length q ≡ length p
    → is_valid_slot l q k ≡ is_valid_slot l p k
unfolding is_valid_slot
is_valid_slot-same_size l k p q e = rw e refl

int_inside : (p : Page) (o : ℕ) {v : ℤ} → Page.get_int p o ≡ some v → o + int_size + 0 ≤ length p
unfolding Page.get_int
int_inside p o e = ground arith

module _ (l : Layout) (whole : l.slot_size ≡ pos (width l))
    (packed : IsPacked l.schema l.offsets (width l)) (made : create_layout l.schema ≡ some l) where
  get_string-zero :
      (j : ℕ) (f : Text) (p : Page)
      → text_mem f l.schema.fields ≡ true
      → get_int l j f p ≡ some (pos 0)
      → get_string l j f p ≡ some []
  unfolding Page.get_string read_at
  get_string-zero j f p listed e =
      let (z, i, at', typed) = create_layout-known l.schema f made listed in
      let (o, n, at, sized, lo, hi, four) = field_at l whole packed f z at' in
      let zero = rw (get_int-at l whole j f p at) at e in
      rw (get_string-at l whole j f p at)
        (get_bytes-some p (start_of l j + o) [] zero (int_inside p (start_of l j + o) zero) refl)

  format_field_lem :
      (k : ℕ) (f : Text) (p : Page)
      → text_mem f l.schema.fields ≡ true
      → is_valid_slot l p k ≡ true
      → (q : Page) × (format_field l k f p ≡ some q)
        × (get_int l k f q ≡ some (pos 0))
        × KeepsOthers l k f p q
        × Frame p q (start_of l k + int_size) (start_of l k + width l)
  unfolding format_field field_type
  format_field_lem k f p listed valid =
      let (z, i, at', typed) = create_layout-known l.schema f made listed in
      let (o, n, at, sized, lo, hi, four) = field_at l whole packed f z at' in
      let (q, e, zeroes, frame) =
        zero_write (int_eq i.type integer) p (start_of l k + o)
          (omega (arith, field_inside l whole packed k f p valid at sized)) in
      (
        q,
        rw (field_pos_lem l whole k f at, typed) e,
        get_int-at l whole k f q at ∙ zeroes,
        Frame-KeepsOthers l whole packed k f o n at sized
            (Frame-widen (omega arith) (omega arith) frame),
        Frame-widen (omega arith) (omega arith) frame,
      )

  format_fields_lem :
      (k : ℕ) (names : List Text) (p : Page)
      → ((f : Text) → text_mem f names ≡ true → text_mem f l.schema.fields ≡ true)
      → is_valid_slot l p k ≡ true
      → (q : Page) × (format_fields l k names p ≡ some q)
        × ((f : Text)
            → (text_mem f names ≡ true) ⊎ (get_int l k f p ≡ some (pos 0))
            → get_int l k f q ≡ some (pos 0))
        × Frame p q (start_of l k + int_size) (start_of l k + width l)
  unfolding format_fields text_mem
  format_fields_lem k [] p listed valid =
      (p, refl, λ f zero. elim zero [ inl h ↦ absurd (cc) | inr e ↦ e ], Frame-refl)
  format_fields_lem k (g ∷ names) p listed valid =
      let (p', e, zeroes, kept, frame) =
        format_field_lem k g p (listed g (ground (arith, text_eq_self g))) valid in
      let (q, e', all, frame') =
        format_fields_lem k names p' (λ f h. listed f (ground arith))
          (is_valid_slot-same_size l k _ _ frame.same_size ∙ valid) in
      (
        q,
        rw e e',
        λ f zero. elim (Bool-cases (text_eq f g)) [
          | inl same ↦ all f (inr (rw ((text_eq_iff f g).0 same) zeroes))
          | inr other ↦ elim zero [
            | inl h ↦ all f (inl (ground arith))
            | inr old ↦ all f (inr (kept.ints k f (inr (ground (arith, text_eq_iff f g))) ∙ old))
          ]
        ],
        Frame-trans frame frame',
      )

  -- One round of `Format` blanks its slot, and writes nowhere else.
  format_slot_lem :
      (k : ℕ) (p : Page)
      → is_valid_slot l p k ≡ true
      → (q : Page) × (format_slot l k p ≡ some q)
        × IsBlank l k q
        × Frame p q (start_of l k) (start_of l k + width l)
  unfolding format_slot
  format_slot_lem k p valid =
      let room = packed.room in
      let inside = is_valid_slot_lem l whole packed p k valid in
      let (p', e, frame) = set_int-Frame p (start_of l k) empty (omega arith) in
      let (q, e', all, frame') =
        format_fields_lem k l.schema.fields p' (λ f h. h)
          (is_valid_slot-same_size l k _ _ frame.same_size ∙ valid) in
      (
        q,
        rw (clear_flag-at l whole k p, e) e',
        record {
          flag =
              get_flag-at l whole k q
              ∙ get_int-Frame frame' (start_of l k) (inl (omega arith))
              ∙ get_int-set_int p (start_of l k) empty (omega arith) e;
          fields = λ f h. all f (inl h);
        },
        Frame-trans (Frame-widen (omega arith) (omega arith) frame)
            (Frame-widen (omega arith) (omega arith) frame'),
      )

  slot-Clear :
      (j k a n : ℕ)
      → j ≢ k
      → start_of l j ≤ a
      → a + n ≤ start_of l j + width l
      → Clear (start_of l k) (start_of l k + width l) a n
  slot-Clear j k a n other lo hi = elim (slots_apart l j k) [
    | inl same ↦ absurd (other same)
    | inr (inl before) ↦ inl (omega arith)
    | inr (inr after) ↦ inr (omega arith)
  ]

  -- A blank slot stays blank when another slot is written.
  Frame-IsBlank :
      (j k : ℕ) {p q : Page}
      → j ≢ k
      → Frame p q (start_of l k) (start_of l k + width l)
      → IsBlank l j p
      → IsBlank l j q
  Frame-IsBlank j k {p} {q} other frame blank = record {
    flag =
        get_flag-at l whole j q
        ∙ get_int-Frame frame (start_of l j) (
            slot-Clear j k (start_of l j) int_size other (omega arith) (omega (arith, packed.room)))
        ∙ rw (get_flag-at l whole j p) at blank.flag;
    fields = λ f h.
        let (z, i, at', typed) = create_layout-known l.schema f made h in
        let (o, n, at, sized, lo, hi, four) = field_at l whole packed f z at' in
        get_int-at l whole j f q at
        ∙ get_int-Frame frame (start_of l j + o)
            (slot-Clear j k (start_of l j + o) int_size other (omega arith) (omega arith))
        ∙ rw (get_int-at l whole j f p at) at (blank.fields f h);
  }

  -- After the round for the slot `start`, the slots behind it are to come, and the others blank.
  IsBlank-next :
      (start j : ℕ) {p q : Page}
      → Frame p q (start_of l start) (start_of l start + width l)
      → IsBlank l start q
      → (start ≤ j) ⊎ IsBlank l j p
      → (suc start ≤ j) ⊎ IsBlank l j q
  IsBlank-next start j {p} {q} frame blank late = elim (ℕ_discrete j start) [
    | yes same ↦ inr (rw same blank)
    | no other ↦ elim late [
      | inl after ↦ inl (omega arith)
      | inr old ↦ inr (Frame-IsBlank j start other frame old)
    ]
  ]

  format_from_lem :
      (fuel start : ℕ) (p : Page)
      → 0 < fuel
      → length p < start + fuel
      → (q : Page) × (format_from fuel l start p ≡ some q)
        × (length q ≡ length p)
        × ((j : ℕ) → is_valid_slot l p j ≡ true → (start ≤ j) ⊎ IsBlank l j p → IsBlank l j q)
  unfolding format_from
  format_from_lem zero start p some_fuel enough = absurd (omega arith)
  format_from_lem (suc fuel) start p some_fuel enough =
      elim (Bool-cases (is_valid_slot l p start)) [
        | inl valid ↦
            let low = slot-lt l whole packed p start valid in
            let (p', e, blank, frame) = format_slot_lem start p valid in
            let size = frame.same_size in
            let (q, e', size', all) =
              format_from_lem fuel (suc start) p' (omega arith) (omega (arith, size)) in
            (
              q,
              rw (valid, e) e',
              size' ∙ size,
              λ j valid' late.
                  all j (is_valid_slot-same_size l j _ _ size ∙ valid')
                    (IsBlank-next start j frame blank late),
            )
        | inr outside ↦ (
          p,
          rw outside refl,
          refl,
          λ j valid late. elim late [
            | inl after ↦
                absurd (ground (arith, is_valid_slot-le l whole packed p start j after valid))
            | inr blank ↦ blank
          ],
        )
      ]

module _ (l : Layout) (all : IsSized l.schema) (made : create_layout l.schema ≡ some l) where
  -- In a layout of a schema without negative lengths, `Format` returns, and then every slot of the block is empty, every integer field of it is 0,
  -- and every string field is the empty string.
  pub format_lem :
      (p : Page)
      → (q : Page) × (format l p ≡ some q)
        × (length q ≡ length p)
        × ((j : ℕ) → is_valid_slot l p j ≡ true → get_flag l j q ≡ some empty)
        × ((j : ℕ) (f : Text)
            → is_valid_slot l p j ≡ true
            → text_mem f l.schema.fields ≡ true
            → (get_int l j f q ≡ some (pos 0)) × (get_string l j f q ≡ some []))
  unfolding format
  format_lem p =
      let (whole, packed) = layout-IsPacked l all made in
      let (q, e, size, blank) =
        format_from_lem l whole packed made (rounds p) 0 p (omega arith) (omega arith) in
      (
        q,
        e,
        size,
        λ j valid. (blank j valid (inl (omega arith))).flag,
        λ j f valid listed.
            let zero = (blank j valid (inl (omega arith))).fields f listed in
            (zero, get_string-zero l whole packed made j f q listed zero),
      )
