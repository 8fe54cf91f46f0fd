-- ===== src/Record/Page/Slots.antt =====
-- src/record/record_page.cpp: the search for a slot, and the flags.
use simpledb.Prelude.{
  ap, none, false, ℕ, zero, suc, ◌+◌, ◌∙◌, ◌≤◌, ◌<◌, ◌≡◌, ◌≢◌, refl, inl, inr, true, some, arith,
  length, leb→le, Bool-cases, subst, dec_lt, le→leb,
}
use simpledb.Prelude.Bytes.{read_at}
use simpledb.Prelude.Int.{ℤ, pos, negsuc, times, int_eq, int_eq_iff}
use simpledb.File.Page.{Page, int_size, get_int, decode_int}
use simpledb.Record.Layout.{Layout, create_layout}
use simpledb.Record.Layout.Bounds.{IsSized, IsPacked}
use simpledb.Record.Page.{
  offset, is_valid_slot, get_flag, search_from, search_after, next_after, rounds, used, empty,
}
use simpledb.Record.Page.Fields.{is_valid_slot_lem}
use simpledb.Record.Page.Positions.{width, start_of, layout-IsPacked, is_valid_slot-at, get_flag-at}

-- `slot` is the first from `start` on in the block whose flag is `flag`.
pub record IsFirst (l : Layout) (p : Page) (start : ℕ) (flag : ℤ) (slot : ℕ) : Type 0 where
  pub late : start ≤ slot
  pub valid : is_valid_slot l p slot ≡ true
  pub here : get_flag l slot p ≡ some flag
  pub before : (j : ℕ) → start ≤ j → j < slot → get_flag l j p ≢ some flag

-- What a search from `start` on answers: the first slot with the flag, or -1 when no slot of the
-- block has it.
pub data Answers (l : Layout) (p : Page) (start : ℕ) (flag : ℤ) (r : ℤ) : Type 0 where
  at_slot : (slot : ℕ) → r ≡ pos slot → IsFirst l p start flag slot → Answers l p start flag r
  nowhere :
      r ≡ negsuc 0
      → ((j : ℕ) → start ≤ j → is_valid_slot l p j ≡ true → get_flag l j p ≢ some flag)
      → Answers l p start flag r

-- The slot before `start`; -1 stands before the first.
abbrev pub slot_before : ℕ → ℤ
slot_before zero = negsuc 0
slot_before (suc n) = pos n

module _ (l : Layout) (whole : l.slot_size ≡ pos (width l))
    (packed : IsPacked l.schema l.offsets (width l)) where
  get_flag-some :
      (p : Page) (k : ℕ) → is_valid_slot l p k ≡ true → (v : ℤ) × (get_flag l k p ≡ some v)
  unfolding get_int
  get_flag-some p k valid =
      let h = is_valid_slot_lem l whole packed p k valid in
      let room = packed.room in
      (decode_int (read_at (start_of l k) int_size p), get_flag-at l whole k p ∙ ground arith)

  pub is_valid_slot-le :
      (p : Page) (j k : ℕ) → j ≤ k → is_valid_slot l p k ≡ true → is_valid_slot l p j ≡ true
  is_valid_slot-le p j k h valid =
      let e = leb→le (start_of l (suc k)) (length p) (rw (is_valid_slot-at l whole p k) at valid) in
      rw (is_valid_slot-at l whole p j) (le→leb (start_of l (suc j)) (length p) (grind arith))

  pub slot-lt : (p : Page) (k : ℕ) → is_valid_slot l p k ≡ true → k < length p
  slot-lt p k valid =
      let e = leb→le (start_of l (suc k)) (length p) (rw (is_valid_slot-at l whole p k) at valid) in
      let room = packed.room in grind arith

  Answers-earlier :
      (p : Page) (start : ℕ) (flag : ℤ) {r : ℤ}
      → get_flag l start p ≢ some flag
      → Answers l p (suc start) flag r
      → Answers l p start flag r
  Answers-earlier p start flag here (at_slot slot e first) = at_slot slot e record {
    late = omega (arith, first.late);
    valid = first.valid;
    here = first.here;
    before = λ j h k. elim (dec_lt start j) [
      | yes later ↦ first.before j later k
      | no same ↦ let e : start ≡ j = omega arith in subst (λ i. get_flag l i p ≢ some flag) e here
    ];
  }
  Answers-earlier p start flag here (nowhere e none_later) = nowhere e (λ j h valid.
      elim (dec_lt start j) [
        | yes later ↦ none_later j later valid
        | no same ↦
            let e : start ≡ j = omega arith in subst (λ i. get_flag l i p ≢ some flag) e here
      ])

  search_from-Answers :
      (fuel start : ℕ) (flag : ℤ) (p : Page)
      → 0 < fuel
      → length p < start + fuel
      → (r : ℤ) × (search_from fuel l start flag p ≡ some r) × Answers l p start flag r
  unfolding search_from
  search_from-Answers zero start flag p some_fuel enough = absurd (omega arith)
  search_from-Answers (suc fuel) start flag p some_fuel enough =
      elim (Bool-cases (is_valid_slot l p start)) [
        | inl valid ↦
            let (v, e) = get_flag-some p start valid in
            elim (Bool-cases (int_eq v flag)) [
              | inl same ↦ (
                pos start,
                rw (valid, e, same) refl,
                at_slot start refl record {
                  late = omega arith;
                  valid = valid;
                  here = rw (← (int_eq_iff v flag).0 same) e;
                  before = λ j h k. absurd (omega arith);
                },
              )
              | inr other ↦
                  let (r, e', answers) =
                    search_from-Answers fuel (suc start) flag p
                      (omega (arith, slot-lt p start valid)) (omega arith) in
                  (
                    r,
                    rw (valid, e, other) e',
                    Answers-earlier p start flag (ground (arith, int_eq_iff v flag)) answers,
                  )
            ]
        | inr outside ↦ (
          negsuc 0,
          rw outside refl,
          nowhere refl (λ j h valid. absurd (ground (arith, is_valid_slot-le p start j h valid))),
        )
      ]

  search_after-Answers :
      (start : ℕ) (flag : ℤ) (p : Page)
      → (r : ℤ) × (search_after l (slot_before start) flag p ≡ some r) × Answers l p start flag r
  unfolding search_after
  search_after-Answers zero flag p =
      search_from-Answers (rounds p) 0 flag p (omega arith) (omega arith)
  search_after-Answers (suc n) flag p =
      search_from-Answers (rounds p) (suc n) flag p (omega arith) (omega arith)

module _ (l : Layout) (all : IsSized l.schema) (made : create_layout l.schema ≡ some l) where
  -- In a layout of a schema without negative lengths, `NextAfter` returns the first used slot behind
  -- the given one, or -1 when no slot behind it is used.
  pub next_after-Answers :
      (start : ℕ) (p : Page)
      → (r : ℤ) × (next_after l (slot_before start) p ≡ some r) × Answers l p start used r
  unfolding next_after
  next_after-Answers start p =
      let (whole, packed) = layout-IsPacked l all made in
      search_after-Answers l whole packed start used p

  -- The search of `InsertAfter`.
  pub search_empty-Answers :
      (start : ℕ) (p : Page)
      → (r : ℤ) × (search_after l (slot_before start) empty p ≡ some r) × Answers l p start empty r
  search_empty-Answers start p =
      let (whole, packed) = layout-IsPacked l all made in
      search_after-Answers l whole packed start empty p

offset_flat : (l : Layout) (k : ℕ) → l.slot_size ≡ pos 0 → offset l k ≡ pos 0
unfolding offset times
offset_flat l k flat = ap (times k) flat ∙ ap pos (omega arith)

valid_flat : (l : Layout) (p : Page) (k : ℕ) → l.slot_size ≡ pos 0 → is_valid_slot l p k ≡ true
unfolding is_valid_slot
valid_flat l p k flat = rw (offset_flat l (suc k) flat) (ground arith)

flag_flat : (l : Layout) (p : Page) (k : ℕ) → l.slot_size ≡ pos 0 → get_flag l k p ≡ get_flag l 0 p
unfolding get_flag
flag_flat l p k flat = rw (offset_flat l k flat, offset_flat l 0 flat) refl

-- In a layout whose slots have no bytes, a search of a page with another flag in front takes any
-- number of rounds: it does not end.
pub search_from-endless :
    (fuel start : ℕ) (l : Layout) (flag v : ℤ) (p : Page)
    → l.slot_size ≡ pos 0
    → get_flag l 0 p ≡ some v
    → v ≢ flag
    → search_from fuel l start flag p ≡ none
unfolding search_from
search_from-endless zero start l flag v p flat e other = refl
search_from-endless (suc fuel) start l flag v p flat e other =
    rw
      (
        valid_flat l p start flat,
        flag_flat l p start flat ∙ e,
        other_flag,
        search_from-endless fuel (suc start) l flag v p flat e other,
      )
      refl
  where
    other_flag : int_eq v flag ≡ false
    other_flag = ground (arith, int_eq_iff v flag)
