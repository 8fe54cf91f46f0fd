-- ===== src/Log/Iterate.antt =====
-- The iterator gives the records back, newest first.
use mathlib.Core.List.{flatten}
use simpledb.Prelude.{
  ℕ, zero, suc, ◌+◌, ◌-◌, ◌<◌, ◌≡◌, refl, ap, ◌∙◌, List, [], ◌∷◌, ◌++◌, some, arith, length,
  length-replicate, true, false, ==_iff,
}
use simpledb.Prelude.Bytes.{Bytes, ◌>>=◌}
use simpledb.Prelude.Int.{pos, ◌+ℤ◌, int_eq}
use simpledb.File.Block.{FileName}
use simpledb.File.Manager.Blocks.{Holds, block_at}
use simpledb.File.Manager.{FileManager}
use simpledb.File.Page.Laws.{get_bytes_bound}
use simpledb.File.Page.{make, Page, int_size}
use simpledb.Log.{
  LogManager, LogIterator, move_to_block, start, has_next, turn, next, iterator, read_all,
}
use simpledb.Log.Append.{sub-pos, flush-LogHolds}
use simpledb.Log.Records.{Chunk, IsLogPage, Below, LogHolds}

-- The iterator stands in front of the records `rest` of its page, above the blocks `older`.
pub record IsAt (fm : FileManager) (f : FileName) (it : LogIterator) (rest : List Bytes)
    (older : List (List Bytes)) : Type 0 where
  pub offset : ℕ
  pub block : it.block ≡ block_at f (length older)
  pub is_size : length it.page ≡ fm.block_size
  pub current : it.current_pos ≡ pos offset
  pub chunk : Chunk it.page offset rest
  pub below : Below fm f fm.block_size older

add-pos : (a b : ℕ) → pos a +ℤ pos b ≡ pos (a + b)
unfolding ◌+ℤ◌
add-pos a b = ground arith

suc-sub-one : (n : ℕ) → suc n - 1 ≡ n
suc-sub-one n = omega arith

module _ {fm : FileManager} {f : FileName} where
  -- Reading a block that holds records leaves the iterator in front of them.
  move_to_block-IsAt :
      (it : LogIterator) (p : Page) (c : List Bytes) (older : List (List Bytes))
      → length it.page ≡ fm.block_size
      → it.block ≡ block_at f (length older)
      → Holds fm f (length older) p
      → IsLogPage fm.block_size p c
      → Below fm f fm.block_size older
      → (it' : LogIterator) × (move_to_block fm it (block_at f (length older)) ≡ some (fm, it'))
        × IsAt fm f it' c older
  unfolding move_to_block
  move_to_block-IsAt it p c older size at_block held page below = (
    record it { page = p; current_pos = pos page.boundary },
    rw (size, held, page.stored) refl,
    record {
      offset = page.boundary;
      block = at_block;
      is_size = page.is_size;
      current = refl;
      chunk = page.chunk;
      below = below;
    },
  )

  offset-lt :
      {it : LogIterator} {r : Bytes} {rest : List Bytes} {older : List (List Bytes)}
      (h : IsAt fm f it (r ∷ rest) older)
      → h.offset < fm.block_size
  offset-lt {it} {r} h = omega (arith, get_bytes_bound it.page h.offset r h.chunk.0, h.is_size)

  -- With a record ahead on its page the iterator does not turn to another block.
  turn-stay :
      {it : LogIterator} {r : Bytes} {rest : List Bytes} {older : List (List Bytes)}
      → IsAt fm f it (r ∷ rest) older
      → turn fm it ≡ some (fm, it)
  unfolding turn int_eq
  turn-stay h = rw h.current (ground (arith, offset-lt h))

  -- At the end of its page it turns to the block below.
  turn-IsAt :
      {it : LogIterator} {c : List Bytes} {older : List (List Bytes)}
      → IsAt fm f it [] (c ∷ older)
      → (it' : LogIterator) × (turn fm it ≡ some (fm, it')) × IsAt fm f it' c older × (0 < length c)
  unfolding turn int_eq
  turn-IsAt {it} {c} {older} h =
      let (p, held, page, ne, below) = h.below in
      let (it', e, at') =
        move_to_block-IsAt
          (record it { block = block_at f (length older); current_pos = pos fm.block_size }) p c
          older h.is_size refl held page below in
      (
        it',
        rw
            (
              h.current,
              h.chunk ∙ h.is_size,
              (==_iff fm.block_size fm.block_size).1 refl,
              h.block,
              sub-pos (suc (length older)) 1 (omega arith),
              suc-sub-one (length older),
            )
            e,
        at',
        ne,
      )

  next-IsAt :
      (it : LogIterator) {it' : LogIterator} {r : Bytes} {rest : List Bytes}
      {older : List (List Bytes)}
      → turn fm it ≡ some (fm, it')
      → IsAt fm f it' (r ∷ rest) older
      → (it'' : LogIterator) × (next fm it ≡ some (fm, it'', r)) × IsAt fm f it'' rest older
  unfolding next
  next-IsAt it {it' = it'} {r} e h = (
    record it' { current_pos = pos (h.offset + (int_size + length r)) },
    rw (e, h.current, h.chunk.0) (rw (add-pos h.offset (int_size + length r)) refl),
    record {
      offset = h.offset + (int_size + length r);
      block = h.block;
      is_size = h.is_size;
      current = refl;
      chunk = h.chunk.1;
      below = h.below;
    },
  )

  has_next-cons :
      {it : LogIterator} {r : Bytes} {rest : List Bytes} {older : List (List Bytes)}
      → IsAt fm f it (r ∷ rest) older
      → has_next fm it ≡ true
  unfolding has_next
  has_next-cons h = rw h.current (ground (arith, offset-lt h))

  has_next-older :
      {it : LogIterator} {c : List Bytes} {older : List (List Bytes)}
      → IsAt fm f it [] (c ∷ older)
      → has_next fm it ≡ true
  unfolding has_next
  has_next-older h = rw (h.current, h.block) (ground arith)

  has_next-end : {it : LogIterator} → IsAt fm f it [] [] → has_next fm it ≡ false
  unfolding has_next
  has_next-end h = rw (h.current, h.block) (ground (arith, h.chunk, h.is_size))

  -- With enough fuel the loop reads all the records, in order, and stops.
  read_all-IsAt :
      (fuel : ℕ) (it : LogIterator) (rest : List Bytes) (older : List (List Bytes))
      → IsAt fm f it rest older
      → length (rest ++ flatten older) < fuel
      → read_all fuel fm it ≡ some (rest ++ flatten older)
  unfolding read_all flatten
  read_all-IsAt zero it rest older h lt = absurd (omega arith)
  read_all-IsAt (suc fuel) it (r ∷ rest) older h lt =
      let (it', e, h') = next-IsAt it (turn-stay h) h in
      rw (read_all, has_next-cons h, e, read_all-IsAt fuel it' rest older h' (omega arith)) refl
  read_all-IsAt (suc fuel) it [] [] h lt = rw (read_all, has_next-end h) refl
  read_all-IsAt (suc fuel) it [] ([] ∷ older) h lt = absurd (omega (arith, h.below.3))
  read_all-IsAt (suc fuel) it [] ((r ∷ c) ∷ older) h lt =
      let (it1, e1, h1, _) = turn-IsAt h in
      let (it2, e2, h2) = next-IsAt it e1 h1 in
      rw (read_all, has_next-older h, e2, read_all-IsAt fuel it2 c older h2 (omega arith)) refl

start-IsAt :
    (fm : FileManager) (l : LogManager) (records : List Bytes) (h : LogHolds fm l records)
    → Holds fm l.log_file (length h.older) l.log_page
    → (it : LogIterator) × (start fm (block_at l.log_file (length h.older)) ≡ some (fm, it))
      × IsAt fm l.log_file it h.current h.older
unfolding start
start-IsAt fm l records h held =
    let fresh : LogIterator = record {
      block = block_at l.log_file (length h.older);
      page = make fm.block_size;
      current_pos = pos 0;
    } in
    let (it, e, at') =
      move_to_block-IsAt fresh l.log_page h.current h.older
        (length-replicate {A = ℕ} fm.block_size 0) refl held h.page h.below in
    (it, e, at')

-- A new iterator over the log gives all its records, newest first, and then stops. One more
-- round than there are records is fuel enough.
pub read_all-iterator :
    (fm : FileManager) (l : LogManager) (records : List Bytes) (fuel : ℕ)
    → LogHolds fm l records
    → length records < fuel
    → (iterator fm l >>= λ state. read_all fuel state.0 state.2) ≡ some records
unfolding iterator
read_all-iterator fm l records fuel h lt =
    let (fm', e, h', held, _) = flush-LogHolds fm l records h in
    let (it, e', at') =
      start-IsAt fm' (record l { last_saved_lsn = l.latest_lsn }) records h' held in
    rw (e, h'.block, e', h'.all)
      (read_all-IsAt fuel it h'.current h'.older at' (omega (arith, ap length h'.all)))
