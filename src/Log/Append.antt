-- ===== src/Log/Append.antt =====
-- `Append` and `Flush` against the sequence of records.
use mathlib.Core.List.{flatten}
use simpledb.Prelude.{
  ℕ, suc, ◌+◌, ◌-◌, ◌≤◌, ◌<◌, ◌^◌, ◌≡◌, refl, ap, ◌∙◌, sym, subst, List, [], ◌∷◌, some, arith,
  length, true, false, Bool-cases, inl, inr,
}
use simpledb.Prelude.Bytes.{Bytes}
use simpledb.Prelude.Int.{pos, ◌-ℤ◌, ltb_ℤ}
use simpledb.File.Manager.Blocks.{Holds, Written, block_at, write-Written, append-Written}
use simpledb.File.Manager.{FileManager}
use simpledb.File.Page.{Page, int_size, get_int, set_int, set_bytes}
use simpledb.File.Page.Laws.{set_bytes_lem, set_int_lem}
use simpledb.Log.{LogManager, flush, append_new_block, make_room, place, append}
use simpledb.Log.Records.{Chunk, IsLogPage, Below, LogHolds, Chunk-kept, Below-kept}

pub sub-pos : (a b : ℕ) → b ≤ a → pos a -ℤ pos b ≡ pos (a - b)
unfolding ◌-ℤ◌
sub-pos a b h = ground arith

module _ (size : ℕ) (p : Page) (records : List Bytes) (r : Bytes) (h : IsLogPage size p records)
    (fits : length r + int_size + int_size ≤ h.boundary) (small : size < 2 ^ 31) where
  abbrev start : ℕ
  start = h.boundary - (length r + int_size)

  -- The two writes of a record that fits left of the boundary.
  page-placed :
      (q q' : Page) × (set_bytes p start r ≡ some q)
      × (set_int q 0 (pos start) ≡ some q')
      × IsLogPage size q' (r ∷ records)
  page-placed =
      let (q, e, got, same, kept) =
        set_bytes_lem p start r (omega (arith, h.upper, h.is_size)) (omega (arith, h.upper)) in
      let (q', e', got', same', kept') =
        set_int_lem q 0 (pos start) (omega (arith, h.upper, h.is_size, h.lower))
          (omega (arith, h.upper)) in
      (
        q,
        q',
        e,
        e',
        record {
          boundary = start;
          is_size = omega (arith, h.is_size);
          stored = got';
          lower = omega arith;
          upper = omega (arith, h.upper);
          chunk = (
            kept' start (omega arith) ∙ got,
            Chunk-kept p q' h.boundary (start + (int_size + length r)) records (same' ∙ same)
                (λ o' up. kept' o' (omega arith) ∙ kept o' (omega arith)) (omega arith)
                (subst (λ o. Chunk p o records) back h.chunk),
          );
        },
      )
    where
      back : h.boundary ≡ start + (int_size + length r)
      back = omega arith

-- The second half of `Append` adds the record to the page.
place-LogHolds :
    (fm : FileManager) (l : LogManager) (records : List Bytes) (r : Bytes)
    (h : LogHolds fm l records)
    → length r + int_size + int_size ≤ h.page.boundary
    → (l' : LogManager) × (place r fm l (pos h.page.boundary) ≡ some (fm, l', l.latest_lsn + 1))
      × LogHolds fm l' (r ∷ records)
      × (l'.log_file ≡ l.log_file)
      × (l'.latest_lsn ≡ l.latest_lsn + 1)
      × (l'.last_saved_lsn ≡ l.last_saved_lsn)
unfolding place
place-LogHolds fm l records r h fits =
    let (q, q', e, e', page) =
      page-placed fm.block_size l.log_page h.current r h.page fits h.small in
    (
      record l { log_page = q'; latest_lsn = l.latest_lsn + 1 },
      rw (sub-pos h.page.boundary (length r + int_size) (omega arith), e, e') refl,
      record {
        current = r ∷ h.current;
        older = h.older;
        all = ap (◌∷◌ r) h.all;
        sized = h.sized;
        block = h.block;
        page = page;
        below = h.below;
        small = h.small;
      },
      refl,
      refl,
      refl,
    )

-- `Flush` writes the page to its block, and all records are on the disk then.
pub flush-LogHolds :
    (fm : FileManager) (l : LogManager) (records : List Bytes) (h : LogHolds fm l records)
    → (fm' : FileManager) × (flush fm l ≡ some (fm', record l { last_saved_lsn = l.latest_lsn }))
      × (h' : LogHolds fm' (record l { last_saved_lsn = l.latest_lsn }) records) × Holds fm'
          l.log_file
          (length h'.older)
          l.log_page
      × (fm'.block_size ≡ fm.block_size)
unfolding flush
flush-LogHolds fm l records h =
    let (fm', e, w) =
      write-Written h.sized (length h.older) l.log_page (omega arith) h.page.is_size in
    (
      fm',
      rw (h.block, e) refl,
      record {
        current = h.current;
        older = h.older;
        all = h.all;
        sized = w.sized;
        block = h.block;
        page = rw w.same_size h.page;
        below =
            rw w.same_size (Below-kept fm.block_size h.older w (omega arith) (omega arith) h.below);
        small = rw w.same_size h.small;
      },
      w.written,
      w.same_size,
    )

flush-Written :
    (fm : FileManager) (l : LogManager) (records : List Bytes) (h : LogHolds fm l records)
    → (fm' : FileManager) × (flush fm l ≡ some (fm', record l { last_saved_lsn = l.latest_lsn }))
      × Written fm fm' l.log_file
          (suc (length h.older))
          (suc (length h.older))
          (length h.older)
          l.log_page
unfolding flush
flush-Written fm l records h =
    let (fm', e, w) =
      write-Written h.sized (length h.older) l.log_page (omega arith) h.page.is_size in
    (fm', rw (h.block, e) refl, w)

-- The state behind a fresh block: the full page is one of the older blocks.
module _ {fm fm1 fm2 fm3 : FileManager} (l : LogManager) (records : List Bytes) (page : Page)
    (h : LogHolds fm l records)
    (w1 : Written fm fm1 l.log_file
      (suc (length h.older))
      (suc (length h.older))
      (length h.older)
      l.log_page)
    {zeros : Page}
    (w2 : Written fm1 fm2 l.log_file
      (suc (length h.older))
      (suc (suc (length h.older)))
      (suc (length h.older))
      zeros)
    (w3 : Written fm2 fm3 l.log_file
      (suc (suc (length h.older)))
      (suc (suc (length h.older)))
      (suc (length h.older))
      page)
    (ne : 0 < length h.current) (room : int_size ≤ fm.block_size)
    (is_size : length page ≡ fm.block_size) (got : get_int page 0 ≡ some (pos fm.block_size)) where
  abbrev turned : LogManager
  turned = record l {
    last_saved_lsn = l.latest_lsn;
    log_page = page;
    current_block = block_at l.log_file (suc (length h.older));
  }

  fresh_size : fm3.block_size ≡ fm.block_size
  fresh_size = w3.same_size ∙ w2.same_size ∙ w1.same_size

  fresh-Below : Below fm3 l.log_file fm.block_size (h.current ∷ h.older)
  fresh-Below =
      let below1 = Below-kept fm.block_size h.older w1 (omega arith) (omega arith) h.below in
      let below2 =
        Below-kept fm.block_size (h.current ∷ h.older) w2 (omega arith) (omega arith)
          (l.log_page, w1.written, h.page, ne, below1) in
      Below-kept fm.block_size (h.current ∷ h.older) w3 (omega arith) (omega arith) below2

  fresh-LogHolds : LogHolds fm3 turned records
  unfolding flatten
  fresh-LogHolds = record {
    current = [];
    older = h.current ∷ h.older;
    all = h.all;
    sized = w3.sized;
    block = refl;
    page = record {
      boundary = fm.block_size;
      is_size = is_size ∙ sym fresh_size;
      stored = got;
      lower = room;
      upper = omega (arith, fresh_size);
      chunk = sym is_size;
    };
    below = subst (λ s. Below fm3 l.log_file s (h.current ∷ h.older)) (sym fresh_size) fresh-Below;
    small = omega (arith, fresh_size, h.small);
  }

-- A fresh block for a page that is not empty: no record is lost, and the page is empty.
make_room-LogHolds :
    (fm : FileManager) (l : LogManager) (records : List Bytes) (h : LogHolds fm l records)
    → 0 < length h.current
    → int_size ≤ fm.block_size
    → (fm' : FileManager) × (l' : LogManager) × (make_room fm l ≡ some (fm', l', pos fm.block_size))
      × (h' : LogHolds fm' l' records) × (h'.page.boundary ≡ fm.block_size)
      × (l'.latest_lsn ≡ l.latest_lsn)
      × (l'.log_file ≡ l.log_file)
      × (fm'.block_size ≡ fm.block_size)
unfolding make_room append_new_block fresh-LogHolds
make_room-LogHolds fm l records h ne room =
    let (fm1, e1, w1) = flush-Written fm l records h in
    let (fm2, e2, w2) = append-Written w1.sized in
    let (page, e3, got, same, _) =
      set_int_lem l.log_page 0 (pos fm.block_size) (omega (arith, h.page.is_size)) h.small in
    let (fm3, e4, w3) =
      write-Written w2.sized (suc (length h.older)) page (omega arith)
        (omega (arith, h.page.is_size, w1.same_size, w2.same_size)) in
    let size2 : fm2.block_size ≡ fm.block_size = w2.same_size ∙ w1.same_size in
    (
      fm3,
      turned l records page h w1 w2 w3 ne room (same ∙ h.page.is_size) got,
      rw (e1, e2, size2, e3, e4, got) refl,
      fresh-LogHolds l records page h w1 w2 w3 ne room (same ∙ h.page.is_size) got,
      refl,
      refl,
      refl,
      fresh_size l records page h w1 w2 w3 ne room (same ∙ h.page.is_size) got,
    )

length-pos :
    {size : ℕ} {p : Page} (records : List Bytes) (h : IsLogPage size p records)
    → h.boundary < size
    → 0 < length records
length-pos [] h lt = absurd (omega (arith, h.chunk, h.is_size))
length-pos (r ∷ rs) h lt = omega arith

too_long-lt : (b n : ℕ) → ltb_ℤ (pos b -ℤ pos n) (pos int_size) ≡ true → b < n + int_size
unfolding ◌-ℤ◌
too_long-lt b n e = ground arith

too_long-ge : (b n : ℕ) → ltb_ℤ (pos b -ℤ pos n) (pos int_size) ≡ false → n + int_size ≤ b
unfolding ◌-ℤ◌
too_long-ge b n e = ground arith

-- `Append` never fails on a record that fits into an empty block: it reports the next sequence
-- number, and the log then holds the record in front of all that it held.
pub append-LogHolds :
    (fm : FileManager) (l : LogManager) (records : List Bytes) (r : Bytes)
    → LogHolds fm l records
    → length r + int_size + int_size ≤ fm.block_size
    → (fm' : FileManager) × (l' : LogManager) × (append r fm l ≡ some (fm', l', l.latest_lsn + 1))
      × LogHolds fm' l' (r ∷ records)
      × (l'.latest_lsn ≡ l.latest_lsn + 1)
      × (l'.log_file ≡ l.log_file)
      × (fm'.block_size ≡ fm.block_size)
unfolding append
append-LogHolds fm l records r h room =
    elim (Bool-cases (ltb_ℤ (pos h.page.boundary -ℤ pos (length r + int_size)) (pos int_size))) [
      | inr fits ↦
          let (l', e, h', file, lsn, _) =
            place-LogHolds fm l records r h
              (too_long-ge h.page.boundary (length r + int_size) fits) in
          (fm, l', rw (h.page.stored, fits, e) refl, h', lsn, file, refl)
      | inl long ↦
          let lt = too_long-lt h.page.boundary (length r + int_size) long in
          let (fm1, l1, e1, h1, at_end, lsn1, file1, size1) =
            make_room-LogHolds fm l records h (length-pos h.current h.page (omega arith))
              (omega arith) in
          let (l2, e2, h2, file2, lsn2, _) = place-LogHolds fm1 l1 records r h1 (omega arith) in
          (
            fm1,
            l2,
            rw (h.page.stored, long, e1, ← at_end, ← lsn1) e2,
            h2,
            omega arith,
            file2 ∙ file1,
            size1,
          )
    ]
