-- ===== src/Buffer/Invariant.antt =====
-- What holds of the pool between the calls.
use simpledb.Prelude.{
  ℕ, ◌≤◌, ◌≡◌, refl, Bool, true, false, not, ◌||◌, Option, none, some, arith, Bool-cases,
  Option-cases, inl, inr,
}
use simpledb.Prelude.Int.{ltb_ℤ, ℤ, pos, negsuc}
use simpledb.File.Block.{BlockId}
use simpledb.File.Manager as Files
use simpledb.File.Manager.{FileManager}
use simpledb.File.Page.{Page}
use simpledb.Log
use simpledb.Log.{LogManager}
use simpledb.Buffer
use simpledb.Buffer.{Buffer, is_negative, is_pinned}
use simpledb.Buffer.Manager.{BufferManager, holds, is_unpinned}
use simpledb.Buffer.Pool.{count_if, All}

abbrev pub has_place : Option BlockId → Bool
has_place none = false
has_place (some c) = not (is_negative c.block_num)

-- The pins are not fewer than none, and a modified buffer has a block to go to.
pub record IsBuffer (b : Buffer) : Type 0 where
  pub pins : is_negative b.pin_count ≡ false
  pub placed : is_negative b.txn_id || has_place b.block ≡ true

-- `num_available` counts the buffers without a pin, and no block is in two buffers.
pub record IsPool (m : BufferManager) : Type 0 where
  pub counted : m.num_available ≡ pos (count_if is_unpinned m.buffer_pool)
  pub single : (block : BlockId) → count_if (holds block) m.buffer_pool ≤ 1
  pub buffers : All IsBuffer m.buffer_pool

-- The log's block is one of its file.
abbrev pub IsOpen : LogManager → Type 0
IsOpen l = is_negative l.current_block.block_num ≡ false

pub write-some :
    (fm : FileManager) (block : BlockId) (page : Page)
    → is_negative block.block_num ≡ false
    → (fm' : FileManager) × (Files.write fm block page ≡ some fm')
unfolding Files.write
write-some fm block page h = elim (Option-cases (Files.write fm block page)) [
  | inl e ↦ ground arith
  | inr (fm', e) ↦ (fm', e)
]

pub read-some :
    (fm : FileManager) (block : BlockId) (size : ℕ)
    → is_negative block.block_num ≡ false
    → (fm' : FileManager) × (page : Page) × (Files.read fm block size ≡ some (fm', page))
unfolding Files.read
read-some fm block size h = elim (Option-cases (Files.read fm block size)) [
  | inl e ↦ ground arith
  | inr ((fm', page), e) ↦ (fm', page, e)
]

-- The log is on the disk up to the number.
abbrev pub IsSaved : ℤ → LogManager → Type 0
IsSaved lsn l = ltb_ℤ (pos l.last_saved_lsn) lsn ≡ false

-- The number is one that the log has given out, or below zero.
abbrev pub IsGiven : ℤ → LogManager → Type 0
IsGiven lsn l = ltb_ℤ (pos l.latest_lsn) lsn ≡ false

pub flush_to-some :
    (lsn : ℤ) (fm : FileManager) (l : LogManager)
    → IsOpen l
    → (fm' : FileManager) × (l' : LogManager) × (Log.flush_to lsn fm l ≡ some (fm', l'))
      × IsOpen l'
      × (IsGiven lsn l → IsSaved lsn l')
unfolding Log.flush_to
flush_to-some lsn fm l h =
    let (fm', e) = write-some fm l.current_block l.log_page h in
    elim (Bool-cases (ltb_ℤ (pos l.last_saved_lsn) lsn)) [
      | inl late ↦
          (fm', record l { last_saved_lsn = l.latest_lsn }, rw (late, e) refl, h, λ given. given)
      | inr saved ↦ (fm, l, rw saved refl, h, λ _. saved)
    ]

-- What `Flush` leaves as it was, and that the buffer is not modified then.
pub record Flushed (b b' : Buffer) : Type 0 where
  pub clean : is_negative b'.txn_id ≡ true
  pub pins : b'.pin_count ≡ b.pin_count
  pub block : b'.block ≡ b.block
  pub contents : b'.contents ≡ b.contents
  pub lsn : b'.lsn ≡ b.lsn

-- `Flush` of a buffer with a place returns.
pub flush_lem :
    (fm : FileManager) (l : LogManager) (b : Buffer)
    → IsOpen l
    → IsBuffer b
    → (fm' : FileManager) × (l' : LogManager) × (b' : Buffer) × (Buffer.flush fm l b
        ≡ some (fm', l', b'))
      × IsOpen l'
      × Flushed b b'
unfolding Buffer.flush
flush_lem fm l b h v = elim (Bool-cases (is_negative b.txn_id)) [
  | inl clean ↦ (
    fm,
    l,
    b,
    rw clean refl,
    h,
    record { clean = clean; pins = refl; block = refl; contents = refl; lsn = refl },
  )
  | inr dirty ↦ elim (Option-cases b.block) [
    | inl e ↦ ground (arith, v.placed)
    | inr (c, e) ↦
        let (fm1, l1, e1, h1, _) = flush_to-some b.lsn fm l h in
        let (fm2, e2) = write-some fm1 c b.contents (ground (arith, v.placed)) in
        (
          fm2,
          l1,
          record b { txn_id = negsuc 0 },
          rw (dirty, e1, e, e2) refl,
          h1,
          record { clean = refl; pins = refl; block = refl; contents = refl; lsn = refl },
        )
  ]
]

-- A flushed buffer is a buffer again.
pub Flushed-IsBuffer : (b b' : Buffer) → IsBuffer b → Flushed b b' → IsBuffer b'
Flushed-IsBuffer b b' v f = record { pins = rw f.pins v.pins; placed = rw f.clean refl }
