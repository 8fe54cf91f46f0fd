-- ===== src/Transaction/BufferList/Balance.antt =====
-- The pins of a transaction, from its first `Pin` to `UnpinAll`.
use simpledb.Prelude.{
  ℕ, zero, suc, ◌+◌, ◌≤◌, ◌<◌, ◌≡◌, ◌≢◌, inl, inr, refl, ap, sym, subst, true, false, List, [], ◌∷◌,
  Option, none, some, ◌==◌, if◌then◌else◌, arith, get_elem?, set, Bool-cases, Option-cases,
  get_elem?-set, ℕ_discrete, Bool,
}
use simpledb.Prelude.Bytes.{◌>>=◌}
use simpledb.File.Block.{BlockId, block_eq, block_eq_iff}
use simpledb.File.Manager.{FileManager}
use simpledb.Log.{LogManager}
use simpledb.Buffer
use simpledb.Buffer.{Buffer, is_pinned, is_negative}
use simpledb.Buffer.Invariant.{IsPool, IsOpen}
use simpledb.Buffer.Manager.{BufferManager, holds}
use simpledb.Buffer.Pins.{try_to_pin_lem}
use simpledb.Buffer.Pool.{count_if, count_if_pos}
use simpledb.Transaction.BufferList
use simpledb.Transaction.BufferList.{Entry, find_entry, count_pin, note_pin, unpin_all}
use simpledb.Transaction.BufferList.Unpins.{pins_at, held, pins_at-pinned, unpin_all_lem}
use simpledb.Transaction.BufferList.Pins.{Sets, Sets-pins_at, try_to_pin-Sets}

get_elem?-set_other {ℓ} :
    {A : Type ℓ} (l : List A) (i j : ℕ) (a : A) → i ≢ j → get_elem? (set l i a) j ≡ get_elem? l j
get_elem?-set_other [] i j a h = refl
get_elem?-set_other (x ∷ l) zero zero a h = absurd (h refl)
get_elem?-set_other (x ∷ l) zero (suc j) a h = refl
get_elem?-set_other (x ∷ l) (suc i) zero a h = refl
get_elem?-set_other (x ∷ l) (suc i) (suc j) a h = get_elem?-set_other l i j a (λ e. h (ap suc e))

-- Where at most one buffer passes a test, two places of such a buffer are the same.
count_if_unique :
    (test : Buffer → Bool) (pool : List Buffer) (i j : ℕ) (b c : Buffer)
    → count_if test pool ≤ 1
    → get_elem? pool i ≡ some b
    → test b ≡ true
    → get_elem? pool j ≡ some c
    → test c ≡ true
    → i ≡ j
count_if_unique test [] i j b c h e p e' p' = absurd (cc)
count_if_unique test (x ∷ pool) zero zero b c h e p e' p' = refl
count_if_unique test (x ∷ pool) zero (suc j) b c h e p e' p' =
    absurd (ground (arith, count_if_pos test pool j c e' p'))
count_if_unique test (x ∷ pool) (suc i) zero b c h e p e' p' =
    absurd (ground (arith, count_if_pos test pool i b e p))
count_if_unique test (x ∷ pool) (suc i) (suc j) b c h e p e' p' =
    ap suc (count_if_unique test pool i j b c (ground arith) e p e' p')

-- The buffer at a place of the pool holds a block.
abbrev pub HoldsAt : BufferManager → ℕ → BlockId → Type 0
HoldsAt m i block = (b : Buffer) × (get_elem? m.buffer_pool i ≡ some b) × (holds block b ≡ true)

-- Each entry has a pin, and its buffer holds its block.
abbrev pub IsPlaced : BufferManager → List Entry → Type 0
IsPlaced m [] = Unit {0}
IsPlaced m (e ∷ l) = HoldsAt m e.buffer e.block × (0 < e.pins) × IsPlaced m l

module _ (block : BlockId) (m m' : BufferManager) (i : ℕ) (s : Sets block m m' i) where
  Sets-HoldsAt_own : HoldsAt m' i block
  Sets-HoldsAt_own = (
    Buffer.pin s.new,
    rw s.pool (get_elem?-set m.buffer_pool i s.old (Buffer.pin s.new) s.there),
    unfold Buffer.pin in s.holding,
  )

  -- A buffer with a pin goes on to hold its block.
  Sets-HoldsAt :
      (j : ℕ) (c : BlockId) → 0 < pins_at m.buffer_pool j → HoldsAt m j c → HoldsAt m' j c
  unfolding Buffer.pin
  Sets-HoldsAt j c h (b, at, holding) =
      let (b1, at1, pinned, _) = pins_at-pinned m.buffer_pool j h in
      elim (ℕ_discrete i j) [
        | yes same ↦
            let there : get_elem? m.buffer_pool j ≡ some s.old =
              subst (λ (k : ℕ). get_elem? m.buffer_pool k ≡ some s.old) same s.there in
            let old_b : s.old ≡ b = cc in
            let old_b1 : s.old ≡ b1 = cc in
            elim s.pins [
              | inl kept ↦
                  subst (λ (k : ℕ). HoldsAt m' k c) same
                    (
                      Buffer.pin s.new,
                      rw s.pool (get_elem?-set m.buffer_pool i s.old (Buffer.pin s.new) s.there),
                      rw (kept, old_b) holding,
                    )
              | inr (free, _) ↦ absurd (ground (arith, ap is_pinned old_b1))
            ]
        | no other ↦ (
          b,
          rw (s.pool, get_elem?-set_other m.buffer_pool i j (Buffer.pin s.new) other) at,
          holding,
        )
      ]

  Sets-IsPlaced :
      (list : List Entry)
      → ((j : ℕ) → held list j ≤ pins_at m.buffer_pool j)
      → IsPlaced m list
      → IsPlaced m' list
  Sets-IsPlaced [] covered placed = tt
  Sets-IsPlaced (e ∷ list) covered (here, some_pins, rest) = (
    Sets-HoldsAt e.buffer e.block (ground (arith, covered e.buffer)) here,
    some_pins,
    Sets-IsPlaced list (λ j. omega (arith, covered j)) rest,
  )

find_entry-HoldsAt :
    (block : BlockId) (m : BufferManager) (list : List Entry) (e : Entry)
    → IsPlaced m list
    → find_entry block list ≡ some e
    → HoldsAt m e.buffer block
unfolding find_entry
find_entry-HoldsAt block m [] e placed found = absurd (cc)
find_entry-HoldsAt block m (x ∷ list) e (here, some_pins, rest) found =
    elim (Bool-cases (block_eq x.block block)) [
      | inl same ↦
          let x_e : x ≡ e = ground arith in
          subst (λ (y : Entry). HoldsAt m y.buffer block) x_e
            (subst (λ (c : BlockId). HoldsAt m x.buffer c) ((block_eq_iff x.block block).0 same)
              here)
      | inr other ↦ find_entry-HoldsAt block m list e rest (ground arith)
    ]

count_pin_lem :
    (block : BlockId) (m : BufferManager) (list : List Entry) (e : Entry)
    → find_entry block list ≡ some e
    → IsPlaced m list
    → IsPlaced m (count_pin block list)
      × ((j : ℕ) → held (count_pin block list) j ≡ held list j + (if e.buffer == j then 1 else 0))
unfolding find_entry count_pin
count_pin_lem block m [] e found placed = absurd (cc)
count_pin_lem block m (x ∷ list) e found (here, some_pins, rest) =
    elim (Bool-cases (block_eq x.block block)) [
      | inl same ↦
          let x_e : x ≡ e = ground arith in
          rw (same, count_pin)
            ((here, omega arith, rest), λ j. ground (arith, ap (λ (y : Entry). y.buffer) x_e))
      | inr other ↦
          let (placed', count) = count_pin_lem block m list e (ground arith) rest in
          rw (other, count_pin) ((here, some_pins, placed'), λ j. omega (arith, count j))
    ]

note_pin-fresh :
    (block : BlockId) (list : List Entry) (i : ℕ)
    → find_entry block list ≡ none
    → note_pin block i list ≡ record { block = block; buffer = i; pins = 1 } ∷ list
unfolding note_pin count_pin
note_pin-fresh block list i fresh = ground (arith, block_eq_iff block block)

note_pin-known :
    (block : BlockId) (list : List Entry) (i : ℕ) {e : Entry}
    → find_entry block list ≡ some e
    → note_pin block i list ≡ count_pin block list
unfolding note_pin
note_pin-known block list i found = rw (found, note_pin) refl

-- What noting a pin does to a list: the entries stay placed, and one pin more is counted.
abbrev pub Notes : BufferManager → List Entry → List Entry → ℕ → Type 0
Notes m list list' i =
    IsPlaced m list' × ((j : ℕ) → held list' j ≡ held list j + (if i == j then 1 else 0))

-- The pin that is noted is one for the buffer that holds the block.
note_pin_lem :
    (block : BlockId) (m : BufferManager) (list : List Entry) (i : ℕ)
    → IsPool m
    → HoldsAt m i block
    → IsPlaced m list
    → Notes m list (note_pin block i list) i
note_pin_lem block m list i v holding placed = elim (Option-cases (find_entry block list)) [
  | inl fresh ↦
      subst (λ (x : List Entry). Notes m list x i) (sym (note_pin-fresh block list i fresh))
        ((holding, omega arith, placed), λ j. omega arith)
  | inr (e, found) ↦
      let (b, at, held_b) = holding in
      let (c, at', held_c) = find_entry-HoldsAt block m list e placed found in
      let same : e.buffer ≡ i =
        count_if_unique (holds block) m.buffer_pool e.buffer i c b (v.single block) at' held_c at
          held_b in
      subst (λ (x : List Entry). Notes m list x i) (sym (note_pin-known block list i found))
        (subst (λ (k : ℕ). Notes m list (count_pin block list) k) same
          (count_pin_lem block m list e found placed))
]

-- One `Pin` behind the other.
unfoldable pub run_pins :
    List BlockId
    → FileManager
    → LogManager
    → BufferManager
    → List Entry
    → Option (FileManager × LogManager × BufferManager × List Entry)
unfolding BufferList.pin
run_pins [] fm l m list = some (fm, l, m, list)
run_pins (block ∷ blocks) fm l m list = do
  (fm1, l1, m1, list1) ← BufferList.pin block fm l m list
  run_pins blocks fm1 l1 m1 list1

-- Between the calls: the pool and the list are in order, and each buffer has the pins of others
-- and those that the list counts.
record IsBalanced (others : ℕ → ℕ) (l : LogManager) (m : BufferManager) (list : List Entry)
    : Type 0 where
  is_open : IsOpen l
  pool : IsPool m
  placed : IsPlaced m list
  balance : (j : ℕ) → pins_at m.buffer_pool j ≡ others j + held list j

pin-IsBalanced :
    (others : ℕ → ℕ) (block : BlockId) (fm : FileManager) (l : LogManager) (m : BufferManager)
    (list : List Entry) {fm' : FileManager} {l' : LogManager} {m' : BufferManager}
    {list' : List Entry}
    → is_negative block.block_num ≡ false
    → IsBalanced others l m list
    → BufferList.pin block fm l m list ≡ some (fm', l', m', list')
    → IsBalanced others l' m' list'
unfolding BufferList.pin
pin-IsBalanced others block fm l m list {l' = l'} {m' = m'} {list' = list'} place v e =
    let (p, granted, is_open, pool, answer) = try_to_pin_lem block fm l m v.is_open v.pool place in
    elim (Option-cases p.buffer) [
      | inl full ↦ absurd (ground arith)
      | inr (i, given) ↦
          let s = try_to_pin-Sets block fm l m i given granted in
          let placed =
            Sets-IsPlaced block m p.manager i s list (λ j. omega (arith, v.balance j)) v.placed in
          let (placed', count) =
            note_pin_lem block p.manager list i pool (Sets-HoldsAt_own block m p.manager i s)
              placed in
          let done : IsBalanced others p.log p.manager (note_pin block i list) = record {
            is_open = is_open;
            pool = pool;
            placed = placed';
            balance = λ j.
                omega (arith, v.balance j, count j, Sets-pins_at block m p.manager v.pool i s j);
          } in
          subst (λ (x : List Entry). IsBalanced others l' m' x) (ground arith)
            (subst (λ (x : BufferManager). IsBalanced others l' x (note_pin block i list))
              (ground arith)
              (subst (λ (x : LogManager). IsBalanced others x p.manager (note_pin block i list))
                (ground arith) done))
    ]

-- Every block has a number that is not negative.
abbrev pub ArePlaces : List BlockId → Type 0
ArePlaces [] = Unit {0}
ArePlaces (block ∷ blocks) = (is_negative block.block_num ≡ false) × ArePlaces blocks

run_pins-IsBalanced :
    (others : ℕ → ℕ) (blocks : List BlockId) (fm : FileManager) (l : LogManager) (m : BufferManager)
    (list : List Entry) {fm' : FileManager} {l' : LogManager} {m' : BufferManager}
    {list' : List Entry}
    → ArePlaces blocks
    → IsBalanced others l m list
    → run_pins blocks fm l m list ≡ some (fm', l', m', list')
    → IsBalanced others l' m' list'
unfolding run_pins
run_pins-IsBalanced others [] fm l m list {l' = l'} {m' = m'} {list' = list'} places v e =
    subst (λ (x : List Entry). IsBalanced others l' m' x) (ground arith)
      (subst (λ (x : BufferManager). IsBalanced others l' x list) (ground arith)
        (subst (λ (x : LogManager). IsBalanced others x m list) (ground arith) v))
run_pins-IsBalanced others (block ∷ blocks) fm l m list {fm' = fm'} {l' = l'} {m' = m'}
      {list' = list'} (place, places) v e =
    elim (Option-cases (BufferList.pin block fm l m list)) [
      | inl failed ↦ absurd (ground arith)
      | inr ((fm1, l1, m1, list1), found) ↦
          run_pins-IsBalanced others blocks fm1 l1 m1 list1 {fm' = fm'} {l' = l'} {m' = m'}
            {list' = list'} places (pin-IsBalanced others block fm l m list place v found)
            (ground arith)
    ]

-- When a transaction has pinned any blocks, one behind the other and some more than once, each
-- buffer has the pins that it had before and those that the list counts; and `UnpinAll` succeeds,
-- leaves the pool in order, and each buffer with the pins that it had before.
pub unpin_all-run_pins :
    (blocks : List BlockId) (fm : FileManager) (l : LogManager) (m : BufferManager)
    {fm' : FileManager} {l' : LogManager} {m' : BufferManager} {list' : List Entry}
    → IsOpen l
    → IsPool m
    → ArePlaces blocks
    → run_pins blocks fm l m [] ≡ some (fm', l', m', list')
    → ((i : ℕ) → pins_at m'.buffer_pool i ≡ pins_at m.buffer_pool i + held list' i)
      × (m'' : BufferManager) × (unpin_all m' list' ≡ some (m'', []))
      × IsPool m''
      × ((i : ℕ) → pins_at m''.buffer_pool i ≡ pins_at m.buffer_pool i)
unpin_all-run_pins blocks fm l m {m' = m'} {list' = list'} is_open v places e =
    let start : IsBalanced (pins_at m.buffer_pool) l m [] = record {
      is_open = is_open;
      pool = v;
      placed = tt;
      balance = λ j. omega arith;
    } in
    let b = run_pins-IsBalanced (pins_at m.buffer_pool) blocks fm l m [] places start e in
    let (m'', e', v', after) = unpin_all_lem list' m' b.pool (λ i. omega (arith, b.balance i)) in
    (b.balance, m'', e', v', λ i. omega (arith, after i, b.balance i))
