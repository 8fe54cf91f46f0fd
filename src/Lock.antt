-- ===== src/Lock.antt =====
-- src/txn/concurrency: the lock table, and the concurrency manager of a transaction. A thread
-- that waits does nothing, so a request is modelled at the moment when its wait is over: the
-- table is as the other threads have left it, and a conflict that is still there is the
-- LockAbortException (`none`). The clock is not modelled: when the wait ends is left open.
pub mod System
use simpledb.Prelude.{
  ℕ, zero, suc, ◌+◌, Bool, true, false, not, ◌&&◌, List, [], ◌∷◌, Option, none, some, if◌then◌else◌,
}
use simpledb.Prelude.Bytes.{◌>>=◌}
use simpledb.Prelude.Int.{ℤ, pos, negsuc, ◌+ℤ◌, ◌-ℤ◌, ltb_ℤ}
use simpledb.File.Block.{BlockId, block_eq}

-- `locks_` of the table: -1 for an exclusive lock, the number of shared locks, or no entry.
abbrev pub LockTable : Type 0
LockTable = BlockId → Option ℤ

abbrev pub put : LockTable → BlockId → Option ℤ → LockTable
put t b v = λ c. if block_eq b c then v else t c

unfoldable pub get_lock_val : Option ℤ → ℤ
get_lock_val none = pos 0
get_lock_val (some v) = v

unfoldable pub has_exclusive_lock : LockTable → BlockId → Bool
unfolding get_lock_val
has_exclusive_lock t b = ltb_ℤ (get_lock_val (t b)) (pos 0)

unfoldable pub has_other_shared_locks : LockTable → BlockId → Bool
unfolding get_lock_val
has_other_shared_locks t b = ltb_ℤ (pos 1) (get_lock_val (t b))

-- `LockTable::SharedLock`, behind its wait.
unfoldable pub shared_lock : LockTable → BlockId → Option LockTable
unfolding has_exclusive_lock
shared_lock t b =
    if has_exclusive_lock t b then none else some (put t b (some (get_lock_val (t b) +ℤ pos 1)))

-- `LockTable::ExclusiveLock`, behind its wait.
unfoldable pub exclusive_lock : LockTable → BlockId → Option LockTable
unfolding has_other_shared_locks
exclusive_lock t b = if has_other_shared_locks t b then none else some (put t b (some (negsuc 0)))

unfoldable pub unlock : LockTable → BlockId → LockTable
unfolding get_lock_val
unlock t b =
    let val = get_lock_val (t b) in
    if ltb_ℤ (pos 1) val then put t b (some (val -ℤ pos 1)) else put t b none

-- "S" and "X"
pub data Mode : Type 0 where
  s x : Mode

-- `locks_` of a concurrency manager, in the order in which `Release` goes through it.
abbrev pub Locks : Type 0
Locks = List (BlockId × Mode)

unfoldable pub mode_of : BlockId → Locks → Option Mode
mode_of b [] = none
mode_of b ((c, m) ∷ ls) = if block_eq c b then some m else mode_of b ls

is_some : Option Mode → Bool
is_some none = false
is_some (some _) = true

-- `locks_.contains(block)`
unfoldable pub contains : Locks → BlockId → Bool
unfolding is_some mode_of
contains ls b = is_some (mode_of b ls)

is_x : Option Mode → Bool
is_x (some x) = true
is_x _ = false

-- `ConcurrencyManager::HasExclusiveLock`
unfoldable pub manager_has_exclusive_lock : Locks → BlockId → Bool
unfolding is_x mode_of
manager_has_exclusive_lock ls b = is_x (mode_of b ls)

-- `locks_[block] = "X"`
unfoldable pub set_exclusive : BlockId → Locks → Locks
set_exclusive b [] = (b, x) ∷ []
set_exclusive b ((c, m) ∷ ls) = if block_eq c b then (c, x) ∷ ls else (c, m) ∷ set_exclusive b ls

-- What a call leaves: the table and the locks of its transaction, and whether it returned
-- normally (`false` is the exception).
pub record Outcome : Type 0 where
  pub table : LockTable
  pub locks : Locks
  pub granted : Bool

taken : LockTable → Locks → Locks → Option LockTable → Outcome
taken t old new none = record { table = t; locks = old; granted = false }
taken t old new (some t') = record { table = t'; locks = new; granted = true }

-- `ConcurrencyManager::SharedLock`
unfoldable pub manager_shared_lock : LockTable → Locks → BlockId → Outcome
unfolding taken
manager_shared_lock t ls b =
    if not (contains ls b)
    then taken t ls ((b, s) ∷ ls) (shared_lock t b)
    else record { table = t; locks = ls; granted = true }

-- The second half of `ConcurrencyManager::ExclusiveLock`.
unfoldable pub upgrade : LockTable → Locks → BlockId → Outcome
unfolding taken
upgrade t ls b = taken t ls (set_exclusive b ls) (exclusive_lock t b)

upgraded : BlockId → Outcome → Outcome
unfolding upgrade
upgraded b o = if o.granted then upgrade o.table o.locks b else o

-- `ConcurrencyManager::ExclusiveLock`, with no other thread between its halves.
unfoldable pub manager_exclusive_lock : LockTable → Locks → BlockId → Outcome
unfolding manager_has_exclusive_lock manager_shared_lock upgraded
manager_exclusive_lock t ls b =
    if not (manager_has_exclusive_lock ls b)
    then upgraded b (manager_shared_lock t ls b)
    else record { table = t; locks = ls; granted = true }

-- `ConcurrencyManager::Release`
unfoldable pub release : LockTable → Locks → LockTable
release t [] = t
release t ((b, _) ∷ ls) = release (unlock t b) ls
