-- ===== src/Record/Page/Positions.antt =====
-- src/record/record_page.h: where the slots and the fields stand, in a layout whose slots have a
-- size that is not negative.
use simpledb.Prelude.{ℕ, suc, ◌+◌, ◌*◌, ◌≡◌, refl, ap, sym, subst, some, arith, length, leb}
use simpledb.Prelude.Int.{pos, pos_part, times, pos-add}
use simpledb.Prelude.Text.{Text}
use simpledb.File.Page
use simpledb.File.Page.{Page}
use simpledb.Record.Layout.{Layout, get_offset, create_layout}
use simpledb.Record.Layout.Bounds.{IsSized, IsPacked, create_layout-IsPacked}
use simpledb.Record.Page.{
  offset, is_valid_slot, field_pos, get_int, get_string, get_flag, clear_flag, empty,
}

-- The size of a slot, and where a slot begins.
abbrev pub width : Layout → ℕ
width l = pos_part l.slot_size

abbrev pub start_of : Layout → ℕ → ℕ
start_of l slot = slot * width l

pub layout-IsPacked :
    (l : Layout)
    → IsSized l.schema
    → create_layout l.schema ≡ some l
    → (l.slot_size ≡ pos (width l)) × IsPacked l.schema l.offsets (width l)
layout-IsPacked l sized made =
    let (size, whole, packed) = create_layout-IsPacked l.schema sized made in
    subst (λ n. (l.slot_size ≡ pos n) × IsPacked l.schema l.offsets n) (sym (ap pos_part whole))
      (whole, packed)

module _ (l : Layout) (whole : l.slot_size ≡ pos (width l)) where
  pub offset_lem : (k : ℕ) → offset l k ≡ pos (start_of l k)
  unfolding offset times
  offset_lem k = ap (times k) whole

  pub is_valid_slot-at :
      (p : Page) (k : ℕ) → is_valid_slot l p k ≡ leb (start_of l (suc k)) (length p)
  unfolding is_valid_slot
  is_valid_slot-at p k = rw (offset_lem (suc k)) (ground arith)

  pub field_pos_lem :
      (k : ℕ) (f : Text) {o : ℕ}
      → get_offset f l ≡ some (pos o)
      → field_pos l k f ≡ some (start_of l k + o)
  unfolding field_pos
  field_pos_lem k f {o} at = rw (at, offset_lem k, pos-add (start_of l k) o) refl

  pub get_flag-at : (k : ℕ) (p : Page) → get_flag l k p ≡ Page.get_int p (start_of l k)
  unfolding get_flag
  get_flag-at k p = rw (offset_lem k) refl

  pub clear_flag-at : (k : ℕ) (p : Page) → clear_flag l k p ≡ Page.set_int p (start_of l k) empty
  unfolding clear_flag
  clear_flag-at k p = rw (offset_lem k) refl

  module _ (k : ℕ) (f : Text) (p : Page) {o : ℕ} (at : get_offset f l ≡ some (pos o)) where
    pub get_int-at : get_int l k f p ≡ Page.get_int p (start_of l k + o)
    unfolding get_int
    get_int-at = rw (field_pos_lem k f at) refl

    pub get_string-at : get_string l k f p ≡ Page.get_string p (start_of l k + o)
    unfolding get_string
    get_string-at = rw (field_pos_lem k f at) refl
