-- ===== src/Transaction/BufferList/Pins.antt =====
-- What `Pin` does to the pool and to the list.
use simpledb.Prelude.{
  ℕ, zero, suc, ◌+◌, ◌≡◌, ◌≢◌, ◌⊎◌, inl, inr, refl, ap, subst, true, false, List, [], ◌∷◌, Option,
  none, some, ◌==◌, ==_iff, if◌then◌else◌, arith, get_elem?, set, Bool-cases, Option-cases, length,
}
use simpledb.Prelude.Int.{pos_part, pos, ◌+ℤ◌}
use simpledb.File.Block.{BlockId, block_eq_iff}
use simpledb.File.Manager as Files
use simpledb.File.Manager.{FileManager}
use simpledb.Log.{LogManager}
use simpledb.Buffer
use simpledb.Buffer.{Buffer, is_pinned, is_negative}
use simpledb.Buffer.Invariant.{IsPool, IsBuffer}
use simpledb.Buffer.Manager
use simpledb.Buffer.Manager.{
  BufferManager, Pinned, holds, is_unpinned, try_to_pin, find_existing_buffer,
  choose_unpinned_buffer, reassign, pin_existing, pin_buffer,
}
use simpledb.Buffer.Pool.{find_buffer-some, All-get}
use simpledb.Transaction.BufferList.Unpins.{pins_at, held, pins_at-set}

-- A request that is granted sets one buffer of the pool: it holds the block, and has one more pin
-- than before, or one where it had none.
pub record Sets (block : BlockId) (m m' : BufferManager) (i : ℕ) : Type 0 where
  pub old : Buffer
  pub new : Buffer
  pub there : get_elem? m.buffer_pool i ≡ some old
  pub pool : m'.buffer_pool ≡ set m.buffer_pool i (Buffer.pin new)
  pub holding : holds block new ≡ true
  pub pins : (new ≡ old) ⊎ ((is_pinned old ≡ false) × (new.pin_count ≡ pos 0))

holds-block : (block : BlockId) (b : Buffer) → b.block ≡ some block → holds block b ≡ true
holds-block block b e = rw e ((block_eq_iff block block).1 refl)

module _ (block : BlockId) (fm : FileManager) (l : LogManager) where
  assign_to_block_lem :
      (b : Buffer) (fm' : FileManager) (l' : LogManager) (b' : Buffer)
      → Buffer.assign_to_block block fm l b ≡ some (fm', l', b')
      → (b'.block ≡ some block) × (b'.pin_count ≡ pos 0)
  unfolding Buffer.assign_to_block
  assign_to_block_lem b fm' l' b' e = elim (Option-cases (Buffer.flush fm l b)) [
    | inl failed ↦ absurd (ground arith)
    | inr ((fm1, l1, b1), flushed) ↦
        elim (Option-cases (Files.read fm1 block (length b1.contents))) [
          | inl failed ↦ absurd (ground arith)
          | inr ((fm2, page), read) ↦ ground arith
        ]
  ]

module _ (block : BlockId) (fm : FileManager) (l : LogManager) (m : BufferManager) {p : Pinned}
    (i : ℕ) (given : p.buffer ≡ some i) where
  reassign-none :
      (k : ℕ) (b : Buffer)
      → get_elem? m.buffer_pool k ≡ some b
      → Buffer.assign_to_block block fm l b ≡ none
      → reassign block fm l m k ≢ some p
  unfolding reassign
  reassign-none k b there failed e = ground arith

  reassign-pins :
      (k : ℕ) (b : Buffer) (fm' : FileManager) (l' : LogManager) (b' : Buffer)
      → get_elem? m.buffer_pool k ≡ some b
      → Buffer.assign_to_block block fm l b ≡ some (fm', l', b')
      → reassign block fm l m k ≡ some p
      → pin_buffer k b' fm' l' m ≡ p
  unfolding reassign
  reassign-pins k b fm' l' b' there assigned e = ground arith

  pin_buffer-Sets :
      (k : ℕ) (b b' : Buffer) (fm' : FileManager) (l' : LogManager)
      → get_elem? m.buffer_pool k ≡ some b
      → holds block b' ≡ true
      → (b' ≡ b) ⊎ ((is_pinned b ≡ false) × (b'.pin_count ≡ pos 0))
      → pin_buffer k b' fm' l' m ≡ p
      → Sets block m p.manager i
  unfolding pin_buffer
  pin_buffer-Sets k b b' fm' l' there holding pins e =
      let same : k ≡ i = ground (arith, ap (λ (q : Pinned). q.buffer) e) in
      subst (Sets block m p.manager) same (
        subst (λ (q : Pinned). Sets block m q.manager k) e
          (record {
            old = b;
            new = b';
            there = there;
            pool = refl;
            holding = holding;
            pins = pins;
          }))

  reassign-Sets :
      (k : ℕ)
      → choose_unpinned_buffer m.buffer_pool ≡ some k
      → reassign block fm l m k ≡ some p
      → Sets block m p.manager i
  unfolding choose_unpinned_buffer
  reassign-Sets k chosen e =
      let (b, there, free) = find_buffer-some is_unpinned m.buffer_pool k chosen in
      elim (Option-cases (Buffer.assign_to_block block fm l b)) [
        | inl failed ↦ absurd (reassign-none k b there failed e)
        | inr ((fm', l', b'), assigned) ↦
            let (block', count) = assign_to_block_lem block fm l b fm' l' b' assigned in
            pin_buffer-Sets k b b' fm' l' there (holds-block block b' block')
              (inr (ground arith, count)) (reassign-pins k b fm' l' b' there assigned e)
      ]

  pin_existing-Sets :
      (found : Option ℕ)
      → find_existing_buffer block m.buffer_pool ≡ found
      → pin_existing block fm l m found ≡ some p
      → Sets block m p.manager i
  unfolding pin_existing find_existing_buffer Manager.choose_and_pin
  pin_existing-Sets (some k) found e =
      let (b, there, held) = find_buffer-some (holds block) m.buffer_pool k found in
      pin_buffer-Sets k b b fm l there held (inl refl) (ground (arith, there))
  pin_existing-Sets none found e = elim (Option-cases (choose_unpinned_buffer m.buffer_pool)) [
    | inl full ↦ absurd (ground arith)
    | inr (k, chosen) ↦ reassign-Sets k chosen (ground arith)
  ]

  pub try_to_pin-Sets : try_to_pin block fm l m ≡ some p → Sets block m p.manager i
  unfolding try_to_pin
  try_to_pin-Sets e = pin_existing-Sets (find_existing_buffer block m.buffer_pool) refl e

-- Pins stand where there are not fewer than none.
pin-pos_part :
    (b : Buffer) → IsBuffer b → pos_part (Buffer.pin b).pin_count ≡ pos_part b.pin_count + 1
unfolding Buffer.pin ◌+ℤ◌
pin-pos_part b v = ground (arith, v.pins)

fresh-pos_part : (b : Buffer) → b.pin_count ≡ pos 0 → pos_part (Buffer.pin b).pin_count ≡ 1
unfolding Buffer.pin ◌+ℤ◌
fresh-pos_part b e = ground arith

unpinned-pos_part : (b : Buffer) → is_pinned b ≡ false → pos_part b.pin_count ≡ 0
unpinned-pos_part b e = ground arith

pins_at-get :
    (pool : List Buffer) (i : ℕ) {b : Buffer}
    → get_elem? pool i ≡ some b
    → pins_at pool i ≡ pos_part b.pin_count
pins_at-get [] i e = absurd (cc)
pins_at-get (c ∷ pool) zero {b} e = let same : c ≡ b = cc in rw same refl
pins_at-get (c ∷ pool) (suc i) e = pins_at-get pool i e

module _ (block : BlockId) (m m' : BufferManager) (v : IsPool m) (i : ℕ)
    (s : Sets block m m' i) where
  Sets-pos_part : pos_part (Buffer.pin s.new).pin_count ≡ pins_at m.buffer_pool i + 1
  Sets-pos_part =
      let at = pins_at-get m.buffer_pool i s.there in
      let w = All-get IsBuffer m.buffer_pool i s.old v.buffers s.there in
      elim s.pins [
        | inl same ↦ rw same (omega (arith, at, pin-pos_part s.old w))
        | inr (free, none_yet) ↦
            omega (arith, at, fresh-pos_part s.new none_yet, unpinned-pos_part s.old free)
      ]

  -- A request that is granted gives its buffer one pin more, and leaves the pins of the others.
  pub Sets-pins_at :
      (j : ℕ) → pins_at m'.buffer_pool j ≡ pins_at m.buffer_pool j + (if i == j then 1 else 0)
  Sets-pins_at j =
      rw (s.pool, pins_at-set m.buffer_pool i j s.old (Buffer.pin s.new) s.there)
        (elim (Bool-cases (i == j)) [
          | inl same ↦
              let here : pins_at m.buffer_pool i ≡ pins_at m.buffer_pool j =
                ap (pins_at m.buffer_pool) ((==_iff i j).0 same) in
              rw same (omega (arith, here, Sets-pos_part))
          | inr other ↦ rw other (omega arith)
        ])
