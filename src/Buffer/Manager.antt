-- ===== src/Buffer/Manager.antt =====
-- src/buffer/buffer_manager.h and buffer_manager.cpp. A pointer to a buffer is its place in the
-- pool. `Pin` repeats `TryToPin` until it gives a buffer or the time is over; the repetition, with
-- its clock and its condition variable, is not modelled.
use simpledb.Prelude.{
  ℕ, suc, Bool, false, not, List, [], ◌∷◌, Option, none, some, if◌then◌else◌, get_elem?, set,
  replicate,
}
use simpledb.Prelude.Bytes.{◌>>=◌}
use simpledb.Prelude.Int.{ℤ, pos, int_eq, ◌+ℤ◌, ◌-ℤ◌}
use simpledb.File.Block.{BlockId, block_eq}
use simpledb.File.Manager.{FileManager}
use simpledb.Log.{LogManager}
use simpledb.Buffer
use simpledb.Buffer.{Buffer, is_pinned}

pub record BufferManager : Type 0 where
  pub buffer_pool : List Buffer
  pub num_available : ℤ

unfoldable pub init : FileManager → ℕ → BufferManager
unfolding Buffer.init
init fm num_buffs = record {
  buffer_pool = replicate num_buffs (Buffer.init fm);
  num_available = pos num_buffs;
}

abbrev next : Option ℕ → Option ℕ
next none = none
next (some i) = some (suc i)

-- The first buffer that passes a test.
unfoldable pub find_buffer : (Buffer → Bool) → List Buffer → Option ℕ
find_buffer test [] = none
find_buffer test (b ∷ pool) =
    let rest = find_buffer test pool in if test b then some 0 else next rest

abbrev is_block : BlockId → Option BlockId → Bool
is_block block none = false
is_block block (some c) = block_eq c block

-- `block_opt.has_value() && block_opt.value() == block`
abbrev pub holds : BlockId → Buffer → Bool
holds block b = is_block block b.block

abbrev pub is_unpinned : Buffer → Bool
is_unpinned b = not (is_pinned b)

unfoldable pub find_existing_buffer : BlockId → List Buffer → Option ℕ
unfolding find_buffer
find_existing_buffer block pool = find_buffer (holds block) pool

unfoldable pub choose_unpinned_buffer : List Buffer → Option ℕ
unfolding find_buffer
choose_unpinned_buffer pool = find_buffer is_unpinned pool

-- What a call that may return no buffer gives.
pub record Pinned : Type 0 where
  pub files : FileManager
  pub log : LogManager
  pub manager : BufferManager
  pub buffer : Option ℕ

-- The end of `TryToPin`, with the buffer at that place.
unfoldable pub pin_buffer : ℕ → Buffer → FileManager → LogManager → BufferManager → Pinned
unfolding Buffer.pin ◌-ℤ◌
pin_buffer i b fm l m = record {
  files = fm;
  log = l;
  manager = record {
    buffer_pool = set m.buffer_pool i (Buffer.pin b);
    num_available = if not (is_pinned b) then m.num_available -ℤ pos 1 else m.num_available;
  };
  buffer = some i;
}

-- The branch of `TryToPin` where no buffer holds the block, with the buffer that is chosen.
unfoldable pub reassign : BlockId → FileManager → LogManager → BufferManager → ℕ → Option Pinned
unfolding pin_buffer
reassign block fm l m i = do
  b ← get_elem? m.buffer_pool i
  (fm', l', b') ← Buffer.assign_to_block block fm l b
  some (pin_buffer i b' fm' l' m)

unfoldable pub choose_and_pin :
    BlockId → FileManager → LogManager → BufferManager → Option ℕ → Option Pinned
unfolding reassign
choose_and_pin block fm l m none = some (record { files = fm; log = l; manager = m; buffer = none })
choose_and_pin block fm l m (some i) = reassign block fm l m i

unfoldable pub pin_existing :
    BlockId → FileManager → LogManager → BufferManager → Option ℕ → Option Pinned
unfolding pin_buffer choose_and_pin
pin_existing block fm l m (some i) = do b ← get_elem? m.buffer_pool i; some (pin_buffer i b fm l m)
pin_existing block fm l m none = choose_and_pin block fm l m (choose_unpinned_buffer m.buffer_pool)

-- `TryToPin`
unfoldable pub try_to_pin : BlockId → FileManager → LogManager → BufferManager → Option Pinned
unfolding pin_existing
try_to_pin block fm l m = pin_existing block fm l m (find_existing_buffer block m.buffer_pool)

unfoldable pub unpin : ℕ → BufferManager → Option BufferManager
unfolding Buffer.unpin ◌+ℤ◌
unpin i m = do
  b ← get_elem? m.buffer_pool i
  let b' = Buffer.unpin b
  some (record {
    buffer_pool = set m.buffer_pool i b';
    num_available = if not (is_pinned b') then m.num_available +ℤ pos 1 else m.num_available;
  })

-- One round of the loop of `FlushAll`.
unfoldable pub flush_of :
    ℤ → FileManager → LogManager → Buffer → Option (FileManager × LogManager × Buffer)
unfolding int_eq
flush_of txn_id fm l b = if int_eq b.txn_id txn_id then Buffer.flush fm l b else some (fm, l, b)

unfoldable pub flush_pool :
    ℤ → FileManager → LogManager → List Buffer → Option (FileManager × LogManager × List Buffer)
unfolding flush_of
flush_pool txn_id fm l [] = some (fm, l, [])
flush_pool txn_id fm l (b ∷ pool) = do
  (fm1, l1, b1) ← flush_of txn_id fm l b
  (fm2, l2, pool') ← flush_pool txn_id fm1 l1 pool
  some (fm2, l2, b1 ∷ pool')

-- `FlushAll`
unfoldable pub flush_all :
    ℤ → FileManager → LogManager → BufferManager → Option (FileManager × LogManager × BufferManager)
unfolding flush_pool
flush_all txn_id fm l m = do
  (fm', l', pool) ← flush_pool txn_id fm l m.buffer_pool
  some (fm', l', record m { buffer_pool = pool })
