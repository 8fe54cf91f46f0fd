-- ===== src/Buffer/WriteAhead.antt =====
-- `FlushAll`: the buffers of a transaction go to the disk, and what the log holds of them goes
-- before.
use simpledb.Prelude.{
  ◌≡◌, refl, sym, ap, ◌∙◌, true, false, List, [], ◌∷◌, some, arith, Bool-cases, Option-cases, inl,
  inr,
}
use simpledb.Prelude.Bytes.{Bytes}
use simpledb.Prelude.Int.{ℤ, pos, negsuc, ltb_ℤ, int_eq, int_eq_iff}
use simpledb.File.Block.{BlockId, FileName}
use simpledb.File.Manager as Files
use simpledb.File.Manager.{FileManager}
use simpledb.Log
use simpledb.Log.{LogManager}
use simpledb.Log.Append.{flush-LogHolds}
use simpledb.Log.Records.{LogHolds}
use simpledb.Log.Restart.{init-flush}
use simpledb.Buffer
use simpledb.Buffer.{Buffer, is_negative, is_pinned}
use simpledb.Buffer.Invariant.{
  IsBuffer, IsPool, IsOpen, Flushed-IsBuffer, flush_lem, write-some, IsSaved, IsGiven,
}
use simpledb.Buffer.Manager.{BufferManager, holds, is_unpinned, flush_of, flush_pool, flush_all}
use simpledb.Buffer.Pool.{All, count_if}

-- A log that is opened on these files holds the records.
abbrev pub IsRestored : FileManager → FileName → List Bytes → Type 0
IsRestored fm log_file records =
    (fm' : FileManager) × (l' : LogManager) × (Log.init fm log_file ≡ some (fm', l'))
    × LogHolds fm' l' records

flush_to-IsRestored :
    (lsn : ℤ) (fm : FileManager) (l : LogManager) (records : List Bytes)
    → LogHolds fm l records
    → ltb_ℤ (pos l.last_saved_lsn) lsn ≡ true
    → (fm1 : FileManager) × (l' : LogManager) × (Log.flush_to lsn fm l ≡ some (fm1, l'))
      × (l'.last_saved_lsn ≡ l.latest_lsn)
      × IsRestored fm1 l.log_file records
unfolding Log.flush_to
flush_to-IsRestored lsn fm l records h late =
    let (fm1, e, _, _, _) = flush-LogHolds fm l records h in
    let (fm', l', e', h') = init-flush fm l records h in
    (fm1, record l { last_saved_lsn = l.latest_lsn }, rw late e, refl, (fm', l', rw e at e', h'))

-- With a log that holds the records, `Flush` of a modified buffer that has a block, with pins that are
-- not negative and a sequence number that the log has given out, always returns. Its block is written
-- to files `fm1`. When the log was not saved up to the buffer's last change, a log that is opened on
-- `fm1`, as they are before that write, holds all records; when it was, they are the files as they
-- were before the call. Behind the call the log counts as saved up to that change, and the buffer is
-- not modified.
pub flush-write_ahead :
    (fm : FileManager) (l : LogManager) (b : Buffer) (records : List Bytes)
    → LogHolds fm l records
    → IsBuffer b
    → is_negative b.txn_id ≡ false
    → IsGiven b.lsn l
    → (fm1 : FileManager) × (l' : LogManager) × (c : BlockId) × (fm' : FileManager) × (b.block
        ≡ some c)
      × (Files.write fm1 c b.contents ≡ some fm')
      × (Buffer.flush fm l b ≡ some (fm', l', record b { txn_id = negsuc 0 }))
      × IsSaved b.lsn l'
      × (ltb_ℤ (pos l.last_saved_lsn) b.lsn ≡ true → IsRestored fm1 l.log_file records)
      × (ltb_ℤ (pos l.last_saved_lsn) b.lsn ≡ false → fm1 ≡ fm)
unfolding Buffer.flush
flush-write_ahead fm l b records h v dirty given = elim (Option-cases b.block) [
  | inl e ↦ ground (arith, v.placed)
  | inr (c, e) ↦ elim (Bool-cases (ltb_ℤ (pos l.last_saved_lsn) b.lsn)) [
    | inl late ↦
        let (fm1, l', e1, saved, restored) = flush_to-IsRestored b.lsn fm l records h late in
        let (fm', e2) = write-some fm1 c b.contents (ground (arith, v.placed)) in
        (
          fm1,
          l',
          c,
          fm',
          e,
          e2,
          rw (dirty, e1, e, e2) refl,
          rw saved given,
          λ _. restored,
          λ not_late. absurd (ground arith),
        )
    | inr saved ↦
        let kept : Log.flush_to b.lsn fm l ≡ some (fm, l) = unfold Log.flush_to in rw saved refl in
        let (fm', e2) = write-some fm c b.contents (ground (arith, v.placed)) in
        (
          fm,
          l,
          c,
          fm',
          e,
          e2,
          rw (dirty, kept, e, e2) refl,
          saved,
          λ late. absurd (ground arith),
          λ _. refl,
        )
  ]
]

-- The pool after some buffers were flushed: none is left that the transaction has modified.
record IsFlushed (txn_id : ℤ) (pool pool' : List Buffer) : Type 0 where
  buffers : All IsBuffer pool'
  unpinned : count_if is_unpinned pool' ≡ count_if is_unpinned pool
  holding : (c : BlockId) → count_if (holds c) pool' ≡ count_if (holds c) pool
  clean : All (λ b. int_eq b.txn_id txn_id ≡ false) pool'

flush_of_lem :
    (txn_id : ℤ) (fm : FileManager) (l : LogManager) (b : Buffer)
    → is_negative txn_id ≡ false
    → IsOpen l
    → IsBuffer b
    → (fm' : FileManager) × (l' : LogManager) × (b' : Buffer) × (flush_of txn_id fm l b
        ≡ some (fm', l', b'))
      × IsOpen l'
      × IsBuffer b'
      × (b'.pin_count ≡ b.pin_count)
      × (b'.block ≡ b.block)
      × (int_eq b'.txn_id txn_id ≡ false)
unfolding flush_of
flush_of_lem txn_id fm l b nat o v = elim (Bool-cases (int_eq b.txn_id txn_id)) [
  | inl mine ↦
      let (fm', l', b', e, o', f) = flush_lem fm l b o v in
      (
        fm',
        l',
        b',
        rw mine e,
        o',
        Flushed-IsBuffer b b' v f,
        f.pins,
        f.block,
        other b'.txn_id f.clean,
      )
  | inr others ↦ (fm, l, b, rw others refl, o, v, refl, refl, others)
]
  where
    other : (z : ℤ) → is_negative z ≡ true → int_eq z txn_id ≡ false
    other z h = ground (arith, int_eq_iff z txn_id)

flush_pool_lem :
    (txn_id : ℤ) (fm : FileManager) (l : LogManager) (pool : List Buffer)
    → is_negative txn_id ≡ false
    → IsOpen l
    → All IsBuffer pool
    → (fm' : FileManager) × (l' : LogManager) × (pool' : List Buffer) × (flush_pool txn_id fm l pool
        ≡ some (fm', l', pool'))
      × IsOpen l'
      × IsFlushed txn_id pool pool'
unfolding flush_pool
flush_pool_lem txn_id fm l [] nat o v =
    (fm, l, [], refl, o, record { buffers = tt; unpinned = refl; holding = λ c. refl; clean = tt })
flush_pool_lem txn_id fm l (b ∷ pool) nat o (v, vs) =
    let (fm1, l1, b', e1, o1, v', pins, block, other) = flush_of_lem txn_id fm l b nat o v in
    let (fm2, l2, pool', e2, o2, h) = flush_pool_lem txn_id fm1 l1 pool nat o1 vs in
    (
      fm2,
      l2,
      b' ∷ pool',
      rw (e1, e2) refl,
      o2,
      record {
        buffers = (v', h.buffers);
        unpinned = rw pins (omega (arith, h.unpinned));
        holding = λ c. rw block (omega (arith, h.holding c));
        clean = (other, h.clean);
      },
    )

-- `FlushAll` always returns, keeps the pool in order, and leaves no buffer that the transaction
-- has modified.
pub flush_all_lem :
    (txn_id : ℤ) (fm : FileManager) (l : LogManager) (m : BufferManager)
    → is_negative txn_id ≡ false
    → IsOpen l
    → IsPool m
    → (fm' : FileManager) × (l' : LogManager) × (m' : BufferManager) × (flush_all txn_id fm l m
        ≡ some (fm', l', m'))
      × IsOpen l'
      × IsPool m'
      × All (λ b. int_eq b.txn_id txn_id ≡ false) m'.buffer_pool
unfolding flush_all
flush_all_lem txn_id fm l m nat o v =
    let (fm', l', pool', e, o', h) = flush_pool_lem txn_id fm l m.buffer_pool nat o v.buffers in
    (
      fm',
      l',
      record m { buffer_pool = pool' },
      rw e refl,
      o',
      record {
        counted = v.counted ∙ ap pos (sym h.unpinned);
        single = λ c. omega (arith, h.holding c, v.single c);
        buffers = h.buffers;
      },
      h.clean,
    )
