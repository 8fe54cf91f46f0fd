-- ===== src/Log/Restart.antt =====
-- The constructor: a new log, and the log that an earlier run has flushed.
use mathlib.Core.List.{flatten}
use simpledb.Prelude.{
  ℕ, ◌≤◌, ◌<◌, ◌^◌, ◌≡◌, refl, ◌∙◌, sym, List, [], some, none, arith, length, length-replicate,
}
use simpledb.Prelude.Bytes.{Bytes, ◌>>=◌}
use simpledb.Prelude.Int.{pos}
use simpledb.File.Block.{FileName}
use simpledb.File.Manager.Blocks.{
  block_at, write-Written, append-Written, file_length-IsSized, file_length_absent,
}
use simpledb.File.Manager
use simpledb.File.Manager.{FileManager}
use simpledb.File.Page.Laws.{set_int_lem}
use simpledb.File.Page.{Page, set_int, int_size, make}
use simpledb.Log.{LogManager, init, flush}
use simpledb.Log.Append.{flush-LogHolds}
use simpledb.Log.Records.{LogHolds}

-- A log that is flushed and opened again holds the records that it held before.
pub init-flush :
    (fm : FileManager) (l : LogManager) (records : List Bytes)
    → LogHolds fm l records
    → (fm' : FileManager) × (l' : LogManager) × ((flush fm l >>= λ state. init state.0 l.log_file)
        ≡ some (fm', l'))
      × LogHolds fm' l' records
unfolding init
init-flush fm l records h =
    let (fm', e, h', held, _) = flush-LogHolds fm l records h in
    (
      fm',
      record {
        log_file = l.log_file;
        log_page = l.log_page;
        current_block = block_at l.log_file (length h'.older);
        latest_lsn = 0;
        last_saved_lsn = 0;
      },
      rw (e, file_length-IsSized h'.sized, length-replicate {A = ℕ} fm'.block_size 0, held) refl,
      record {
        current = h'.current;
        older = h'.older;
        all = h'.all;
        sized = h'.sized;
        block = refl;
        page = h'.page;
        below = h'.below;
        small = h'.small;
      },
    )

init_steps :
    (fm : FileManager) {fm1 fm2 fm3 : FileManager} {f : FileName} {page : Page}
    → Manager.file_length fm f ≡ (fm1, 0)
    → Manager.append fm1 f ≡ (fm2, block_at f 0)
    → fm1.block_size ≡ fm.block_size
    → fm2.block_size ≡ fm.block_size
    → set_int (make fm.block_size) 0 (pos fm.block_size) ≡ some page
    → Manager.write fm2 (block_at f 0) page ≡ some fm3
    → init fm f
      ≡ some (
        fm3,
        record {
          log_file = f;
          log_page = page;
          current_block = block_at f 0;
          latest_lsn = 0;
          last_saved_lsn = 0;
        },
      )
unfolding init
init_steps fm e1 e2 s1 s2 e3 e4 = simp (e1, e2, s1, s2, e3, e4) refl

-- A log whose file is not there yet starts with one block and no record.
pub init-fresh :
    (fm : FileManager) (f : FileName)
    → fm.files f ≡ none
    → int_size ≤ fm.block_size
    → fm.block_size < 2 ^ 31
    → (fm' : FileManager) × (l : LogManager) × (init fm f ≡ some (fm', l)) × LogHolds fm' l []
unfolding init flatten
init-fresh fm f absent room small =
    let size = fm.block_size in
    let (fm1, e1, w1, s1) = file_length_absent fm f absent (omega arith) in
    let (fm2, e2, w2) = append-Written w1 in
    let (page, e3, got, same, _) =
      set_int_lem (make size) 0 (pos size) (omega (arith, length-replicate {A = ℕ} size 0)) small in
    let is_size : length page ≡ size = same ∙ length-replicate {A = ℕ} size 0 in
    let (fm3, e4, w4) =
      write-Written w2.sized 0 page (omega arith) (omega (arith, is_size, s1, w2.same_size)) in
    let sizes : fm3.block_size ≡ size = w4.same_size ∙ w2.same_size ∙ s1 in
    (
      fm3,
      record {
        log_file = f;
        log_page = page;
        current_block = block_at f 0;
        latest_lsn = 0;
        last_saved_lsn = 0;
      },
      init_steps fm e1 e2 s1 (w2.same_size ∙ s1) e3 e4,
      record {
        current = [];
        older = [];
        all = refl;
        sized = w4.sized;
        block = refl;
        page = record {
          boundary = size;
          is_size = is_size ∙ sym sizes;
          stored = got;
          lower = room;
          upper = omega (arith, sizes);
          chunk = sym is_size;
        };
        below = tt;
        small = omega (arith, sizes);
      },
    )
