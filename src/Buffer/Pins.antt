-- ===== src/Buffer/Pins.antt =====
-- `TryToPin` and `Unpin` on a pool.
use simpledb.Prelude.{
  zero, replicate, if◌then◌else◌, ℕ, suc, ◌+◌, ◌≤◌, ◌≡◌, refl, sym, ◌∙◌, true, false, not, Option,
  none, some, arith, Bool-cases, Option-cases, inl, inr, get_elem?, set, length, subst,
  get_elem?-set, ap,
}
use simpledb.Prelude.Int.{pos, ◌+ℤ◌, ◌-ℤ◌}
use simpledb.File.Block.{BlockId, block_eq, block_eq_iff}
use simpledb.File.Manager.{FileManager}
use simpledb.Log.{LogManager}
use simpledb.Buffer
use simpledb.Buffer.{Buffer, is_negative, is_pinned}
use simpledb.Buffer.Invariant.{IsBuffer, IsPool, IsOpen, flush_lem, read-some}
use simpledb.Buffer.Manager
use simpledb.Buffer.Manager.{
  BufferManager, Pinned, holds, is_unpinned, pin_buffer, try_to_pin, find_existing_buffer,
  choose_unpinned_buffer, reassign,
}
use simpledb.Buffer.Pool.{
  All, All-get, All-set, count_if, count_if-set, one_if, find_buffer-none, find_buffer-some,
}

-- Fresh buffers: all of them are free, and none holds a block.
fresh_counts :
    (fm : FileManager) (n : ℕ) (c : BlockId)
    → (count_if is_unpinned (replicate n (Buffer.init fm)) ≡ n)
      × (count_if (holds c) (replicate n (Buffer.init fm)) ≡ 0)
      × All IsBuffer (replicate n (Buffer.init fm))
unfolding Buffer.init
fresh_counts fm zero c = (refl, refl, tt)
fresh_counts fm (suc n) c =
    let (free, held, all) = fresh_counts fm n c in
    (omega (arith, free), omega (arith, held), (record { pins = refl; placed = refl }, all))

-- The constructor makes a pool that is in order.
pub init-IsPool : (fm : FileManager) (n : ℕ) (c : BlockId) → IsPool (Manager.init fm n)
unfolding Manager.init
init-IsPool fm n c = record {
  counted = ap pos (sym (fresh_counts fm n c).0);
  single = λ d. omega (arith, (fresh_counts fm n d).1);
  buffers = (fresh_counts fm n c).2;
}

pin-IsBuffer : (b : Buffer) → IsBuffer b → IsBuffer (Buffer.pin b)
unfolding Buffer.pin ◌+ℤ◌
pin-IsBuffer b v = record { pins = ground (arith, v.pins); placed = v.placed }

-- A buffer of the pool is replaced by one that has one more pin.
module _ (fm : FileManager) (l : LogManager) (m : BufferManager) (i : ℕ) (b b' : Buffer)
    (v : IsPool m) (there : get_elem? m.buffer_pool i ≡ some b) (w : IsBuffer b')
    (same : is_pinned b' ≡ is_pinned b) where
  pin_buffer_counted :
      (pin_buffer i b' fm l m).manager.num_available
      ≡ pos (count_if is_unpinned (pin_buffer i b' fm l m).manager.buffer_pool)
  unfolding pin_buffer Buffer.pin ◌-ℤ◌ ◌+ℤ◌
  pin_buffer_counted = ground (
    arith,
    v.counted,
    w.pins,
    same,
    count_if-set is_unpinned m.buffer_pool i b (Buffer.pin b') there,
  )

  pin_buffer-IsPool :
      ((c : BlockId)
        → count_if (holds c) m.buffer_pool + one_if (holds c b') ≤ 1 + one_if (holds c b))
      → IsPool (pin_buffer i b' fm l m).manager
  unfolding pin_buffer Buffer.pin
  pin_buffer-IsPool h = record {
    counted = pin_buffer_counted;
    single =
        λ c. omega (arith, h c, count_if-set (holds c) m.buffer_pool i b (Buffer.pin b') there);
    buffers = All-set IsBuffer m.buffer_pool i (Buffer.pin b') v.buffers (pin-IsBuffer b' w);
  }

-- What the answer to a request says: no buffer, when the block is in none and all are pinned, and
-- then nothing has changed; or a buffer that holds the block and is pinned.
abbrev pub IsAnswer : BlockId → BufferManager → BufferManager → Option ℕ → Type 0
IsAnswer block m m' none =
    (count_if (holds block) m.buffer_pool ≡ 0) × (m.num_available ≡ pos 0) × (m' ≡ m)
IsAnswer block m m' (some i) =
    (b : Buffer) × (get_elem? m'.buffer_pool i ≡ some b)
    × (holds block b ≡ true)
    × (is_pinned b ≡ true)

module _ (block : BlockId) (fm : FileManager) (l : LogManager) (m : BufferManager) (o : IsOpen l)
    (v : IsPool m) where
  pin_buffer-IsAnswer :
      (fm' : FileManager) (l' : LogManager) (i : ℕ) (b b' : Buffer)
      → get_elem? m.buffer_pool i ≡ some b
      → IsBuffer b'
      → holds block b' ≡ true
      → IsAnswer block m (pin_buffer i b' fm' l' m).manager (some i)
  unfolding pin_buffer Buffer.pin ◌+ℤ◌
  pin_buffer-IsAnswer fm' l' i b b' there w held = (
    Buffer.pin b',
    get_elem?-set m.buffer_pool i b (Buffer.pin b') there,
    held,
    ground (arith, w.pins),
  )

  reassign_lem :
      (i : ℕ) (b : Buffer)
      → get_elem? m.buffer_pool i ≡ some b
      → is_unpinned b ≡ true
      → count_if (holds block) m.buffer_pool ≡ 0
      → is_negative block.block_num ≡ false
      → (p : Pinned) × (reassign block fm l m i ≡ some p)
        × IsOpen p.log
        × IsPool p.manager
        × IsAnswer block m p.manager p.buffer
  unfolding reassign Buffer.assign_to_block
  reassign_lem i b there free absent place =
      let w = All-get IsBuffer m.buffer_pool i b v.buffers there in
      let (fm1, l1, b1, e1, o1, f) = flush_lem fm l b o w in
      let (fm2, page, e2) = read-some fm1 block (length b1.contents) place in
      let b' = record b1 { block = some block; contents = page; pin_count = pos 0 } in
      let w' : IsBuffer b' = record { pins = refl; placed = rw f.clean refl } in
      (
        pin_buffer i b' fm2 l1 m,
        rw (there, e1, e2) refl,
        o1,
        pin_buffer-IsPool fm2 l1 m i b b' v there w' (ground arith) (λ c.
            elim (Bool-cases (block_eq block c)) [
              | inl e ↦
                  let q : count_if (holds c) m.buffer_pool ≡ 0 =
                    subst (λ d. count_if (holds d) m.buffer_pool ≡ 0) ((block_eq_iff block c).0 e)
                      absent in
                  ground arith
              | inr e ↦ ground (arith, v.single c)
            ]),
        pin_buffer-IsAnswer fm2 l1 i b b' there w' ((block_eq_iff block block).1 refl),
      )

  existing :
      (found : Option ℕ)
      → find_existing_buffer block m.buffer_pool ≡ found
      → is_negative block.block_num ≡ false
      → (p : Pinned) × (Manager.pin_existing block fm l m found ≡ some p)
        × IsOpen p.log
        × IsPool p.manager
        × IsAnswer block m p.manager p.buffer
  unfolding Manager.pin_existing find_existing_buffer choose_unpinned_buffer Manager.choose_and_pin
  existing (some i) e place =
      let (b, there, held) = find_buffer-some (holds block) m.buffer_pool i e in
      let w = All-get IsBuffer m.buffer_pool i b v.buffers there in
      (
        pin_buffer i b fm l m,
        rw there refl,
        o,
        pin_buffer-IsPool fm l m i b b v there w refl (λ c. omega (arith, v.single c)),
        pin_buffer-IsAnswer fm l i b b there w held,
      )
  existing none e place =
      let absent = find_buffer-none (holds block) m.buffer_pool e in
      elim (Option-cases (choose_unpinned_buffer m.buffer_pool)) [
        | inl none_free ↦
            let full = find_buffer-none is_unpinned m.buffer_pool none_free in
            (
              record { files = fm; log = l; manager = m; buffer = none },
              rw none_free refl,
              o,
              v,
              (absent, v.counted ∙ ap pos full, refl),
            )
        | inr (i, chosen) ↦
            let (b, there, free) = find_buffer-some is_unpinned m.buffer_pool i chosen in
            let (p, e', o', v', answer) = reassign_lem i b there free absent place in
            (p, rw chosen e', o', v', answer)
      ]

  -- A request for a block always comes to an answer, and leaves the pool in order: with a buffer
  -- that holds the block and is pinned, unless no buffer holds it and all are pinned; then it
  -- changes nothing.
  pub try_to_pin_lem :
      is_negative block.block_num ≡ false
      → (p : Pinned) × (try_to_pin block fm l m ≡ some p)
        × IsOpen p.log
        × IsPool p.manager
        × IsAnswer block m p.manager p.buffer
  unfolding try_to_pin
  try_to_pin_lem place = existing (find_existing_buffer block m.buffer_pool) refl place

unpin-IsBuffer : (b : Buffer) → IsBuffer b → is_pinned b ≡ true → IsBuffer (Buffer.unpin b)
unfolding Buffer.unpin ◌-ℤ◌
unpin-IsBuffer b w h = record { pins = ground (arith, w.pins); placed = w.placed }

-- `Unpin` of a buffer that is pinned keeps the pool in order.
pub unpin-IsPool :
    (m : BufferManager) (i : ℕ) (b : Buffer)
    → IsPool m
    → get_elem? m.buffer_pool i ≡ some b
    → is_pinned b ≡ true
    → (m' : BufferManager) × (Manager.unpin i m ≡ some m') × IsPool m'
unfolding Manager.unpin Buffer.unpin ◌-ℤ◌ ◌+ℤ◌
unpin-IsPool m i b v there h =
    let b' = Buffer.unpin b in
    let w = All-get IsBuffer m.buffer_pool i b v.buffers there in
    (
      record {
        buffer_pool = set m.buffer_pool i b';
        num_available = if not (is_pinned b') then m.num_available +ℤ pos 1 else m.num_available;
      },
      rw there refl,
      record {
        counted =
            ground (arith, v.counted, w.pins, count_if-set is_unpinned m.buffer_pool i b b' there);
        single = λ c. omega (arith, v.single c, count_if-set (holds c) m.buffer_pool i b b' there);
        buffers = All-set IsBuffer m.buffer_pool i b' v.buffers (unpin-IsBuffer b w h);
      },
    )
