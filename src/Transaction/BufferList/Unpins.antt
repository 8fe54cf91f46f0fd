-- ===== src/Transaction/BufferList/Unpins.antt =====
-- What `UnpinAll` does to the pins of the pool.
use simpledb.Prelude.{
  Bool-cases, ==_iff, inl, inr, ℕ, zero, suc, ◌+◌, ◌≤◌, ◌<◌, ◌≡◌, refl, true, List, [], ◌∷◌, some,
  ◌==◌, if◌then◌else◌, arith, get_elem?, set,
}
use simpledb.Prelude.Int.{pos_part, ◌-ℤ◌}
use simpledb.Buffer
use simpledb.Buffer.{Buffer, is_pinned}
use simpledb.Buffer.Invariant.{IsPool}
use simpledb.Buffer.Manager
use simpledb.Buffer.Manager.{BufferManager}
use simpledb.Buffer.Pins.{unpin-IsPool}
use simpledb.Transaction.BufferList.{BufferList, unpin_times, unpin_entries, unpin_all}

-- The pins of the buffer at a place.
abbrev pub pins_at : List Buffer → ℕ → ℕ
pins_at [] i = 0
pins_at (b ∷ pool) zero = pos_part b.pin_count
pins_at (b ∷ pool) (suc i) = pins_at pool i

-- The pins that a list of buffers counts for the buffer at a place.
abbrev pub held : BufferList → ℕ → ℕ
held [] i = 0
held (e ∷ l) i = (if e.buffer == i then e.pins else 0) + held l i

pub pins_at-pinned :
    (pool : List Buffer) (i : ℕ)
    → 0 < pins_at pool i
    → (b : Buffer) × (get_elem? pool i ≡ some b)
      × (is_pinned b ≡ true)
      × (pins_at pool i ≡ pos_part b.pin_count)
pins_at-pinned [] i h = absurd (omega arith)
pins_at-pinned (b ∷ pool) zero h = (b, refl, ground arith, refl)
pins_at-pinned (b ∷ pool) (suc i) h = pins_at-pinned pool i h

pub pins_at-set :
    (pool : List Buffer) (i j : ℕ) (b b' : Buffer)
    → get_elem? pool i ≡ some b
    → pins_at (set pool i b') j ≡ (if i == j then pos_part b'.pin_count else pins_at pool j)
pins_at-set [] i j b b' e = absurd (cc)
pins_at-set (c ∷ pool) zero zero b b' e = refl
pins_at-set (c ∷ pool) zero (suc j) b b' e = ground arith
pins_at-set (c ∷ pool) (suc i) zero b b' e = ground arith
pins_at-set (c ∷ pool) (suc i) (suc j) b b' e = ground (arith, pins_at-set pool i j b b')

unpin_lem :
    (m m' : BufferManager) (i : ℕ) (b : Buffer)
    → get_elem? m.buffer_pool i ≡ some b
    → Manager.unpin i m ≡ some m'
    → m'.buffer_pool ≡ set m.buffer_pool i (Buffer.unpin b)
unfolding Manager.unpin
unpin_lem m m' i b there e = ground arith

unpin-pos_part :
    (b : Buffer)
    → 0 < pos_part b.pin_count
    → pos_part (Buffer.unpin b).pin_count + 1 ≡ pos_part b.pin_count
unfolding Buffer.unpin ◌-ℤ◌
unpin-pos_part b h = ground arith

unpin-pins_at :
    (m m' : BufferManager) (i j : ℕ)
    → 0 < pins_at m.buffer_pool i
    → Manager.unpin i m ≡ some m'
    → pins_at m'.buffer_pool j + (if i == j then 1 else 0) ≡ pins_at m.buffer_pool j
unpin-pins_at m m' i j h e =
    let (b, there, pinned, at) = pins_at-pinned m.buffer_pool i h in
    rw (unpin_lem m m' i b there e, pins_at-set m.buffer_pool i j b (Buffer.unpin b) there)
      (elim (Bool-cases (i == j)) [
        | inl same ↦
            let here : pins_at m.buffer_pool j ≡ pos_part b.pin_count =
              rw (← (==_iff i j).0 same) at in
            rw same (omega (arith, here, unpin-pos_part b))
        | inr other ↦ rw other (omega arith)
      ])

-- The pins that the list counts are there.
abbrev pub IsCovered : BufferList → BufferManager → Type 0
IsCovered list m = (i : ℕ) → held list i ≤ pins_at m.buffer_pool i

unpin_times_lem :
    (n i : ℕ) (m : BufferManager)
    → IsPool m
    → n ≤ pins_at m.buffer_pool i
    → (m' : BufferManager) × (unpin_times n i m ≡ some m')
      × IsPool m'
      × ((j : ℕ) → pins_at m'.buffer_pool j + (if i == j then n else 0) ≡ pins_at m.buffer_pool j)
unfolding unpin_times
unpin_times_lem zero i m v h = (m, refl, v, λ j. ground arith)
unpin_times_lem (suc n) i m v h =
    let (b, there, pinned, at) = pins_at-pinned m.buffer_pool i (omega arith) in
    let (m1, e1, v1) = unpin-IsPool m i b v there pinned in
    let step = λ (j : ℕ). unpin-pins_at m m1 i j (omega arith) e1 in
    let (m2, e2, v2, rest) = unpin_times_lem n i m1 v1 (ground (arith, step i)) in
    (m2, rw e1 e2, v2, λ j. ground (arith, step j, rest j))

unpin_entries_lem :
    (list : BufferList) (m : BufferManager)
    → IsPool m
    → IsCovered list m
    → (m' : BufferManager) × (unpin_entries list m ≡ some m')
      × IsPool m'
      × ((i : ℕ) → pins_at m'.buffer_pool i + held list i ≡ pins_at m.buffer_pool i)
unfolding unpin_entries
unpin_entries_lem [] m v covered = (m, refl, v, λ i. omega arith)
unpin_entries_lem (entry ∷ list) m v covered =
    let (m1, e1, v1, first) =
      unpin_times_lem entry.pins entry.buffer m v (ground (arith, covered entry.buffer)) in
    let (m2, e2, v2, rest) =
      unpin_entries_lem list m1 v1 (λ i. omega (arith, covered i, first i)) in
    (m2, rw e1 e2, v2, λ i. omega (arith, first i, rest i))

-- When the pool has the pins that the list counts, `UnpinAll` succeeds, keeps the pool in order,
-- takes exactly these pins from the buffers, and leaves the list empty.
pub unpin_all_lem :
    (list : BufferList) (m : BufferManager)
    → IsPool m
    → IsCovered list m
    → (m' : BufferManager) × (unpin_all m list ≡ some (m', []))
      × IsPool m'
      × ((i : ℕ) → pins_at m'.buffer_pool i + held list i ≡ pins_at m.buffer_pool i)
unfolding unpin_all
unpin_all_lem list m v covered =
    let (m', e, v', pins) = unpin_entries_lem list m v covered in (m', rw e refl, v', pins)
