-- ===== src/Lock/System.antt =====
-- The transactions of the database around the one lock table. Threads meet only in the table,
-- under its mutex, so an interleaving is a sequence of the calls that take the mutex: the two
-- halves of an exclusive request are two events, and so is each unlock of a release.
pub mod Exclusion
pub mod Requests
use simpledb.Prelude.{
  ℕ, zero, suc, ◌+◌, ◌-◌, ◌≤◌, ◌<◌, ◌≡◌, ◌≢◌, refl, sym, ap, ◌∙◌, Bool, true, false, not, ◌&&◌,
  List, [], ◌∷◌, Option, none, some, arith, if◌then◌else◌, get_elem?, set, replicate,
}
use simpledb.Prelude.Int.{ℤ, pos, negsuc, ◌+ℤ◌, ◌-ℤ◌, ltb_ℤ}
use simpledb.File.Block.{BlockId, block_eq, block_eq_iff}
use simpledb.Lock.{
  LockTable, put, Mode, s, x, Locks, Outcome, contains, manager_has_exclusive_lock,
  manager_shared_lock, upgrade, unlock, get_lock_val, mode_of,
}

pub record System : Type 0 where
  pub table : LockTable
  pub managers : List Locks

pub data Event : Type 0 where
  -- `SharedLock`, also as the first half of `ExclusiveLock`
  shared : ℕ → BlockId → Event
  -- the second half of `ExclusiveLock`
  exclusive : ℕ → BlockId → Event
  -- one round of `Release`
  unlock_next : ℕ → Event

put_outcome : System → ℕ → Outcome → System
put_outcome σ i o = record { table = o.table; managers = set σ.managers i o.locks }

share : System → ℕ → BlockId → Option Locks → System
share σ i b none = σ
share σ i b (some ls) = put_outcome σ i (manager_shared_lock σ.table ls b)

-- A thread is in the second half only with a lock on the block that is not exclusive.
exclude : System → ℕ → BlockId → Option Locks → System
exclude σ i b none = σ
exclude σ i b (some ls) =
    if contains ls b && not (manager_has_exclusive_lock ls b)
    then put_outcome σ i (upgrade σ.table ls b)
    else σ

-- The source clears `locks_` when all of them are unlocked. Until then the thread is in `Release` and
-- reads them no more, so the entry of a block goes here with its lock: what is left are the locks that
-- are still held.
unlock_one : System → ℕ → Option Locks → System
unlock_one σ i (some ((b, _) ∷ ls)) = record {
  table = unlock σ.table b;
  managers = set σ.managers i ls;
}
unlock_one σ i _ = σ

unfoldable pub step : Event → System → System
unfolding put_outcome share exclude unlock_one
step (shared i b) σ = share σ i b (get_elem? σ.managers i)
step (exclusive i b) σ = exclude σ i b (get_elem? σ.managers i)
step (unlock_next i) σ = unlock_one σ i (get_elem? σ.managers i)

unfoldable pub run : List Event → System → System
run [] σ = σ
run (e ∷ es) σ = run es (step e σ)

-- `n` transactions, and an empty table.
abbrev pub initial : ℕ → System
initial n = record { table = λ _. none; managers = replicate n [] }

-- How many entries of a manager, and of all, are for the block in the mode.
abbrev pub is_mode : Mode → Mode → ℕ
is_mode s s = 1
is_mode x x = 1
is_mode _ _ = 0

abbrev pub count : BlockId → Mode → Locks → ℕ
count b m [] = 0
count b m ((c, k) ∷ ls) = (if block_eq c b then is_mode m k else 0) + count b m ls

abbrev pub total : BlockId → Mode → List Locks → ℕ
total b m [] = 0
total b m (ls ∷ lss) = count b m ls + total b m lss

-- The entry of the table for a block that `n` shared and `k` exclusive locks are held on.
abbrev pub Agrees : Option ℤ → ℕ → ℕ → Type 0
Agrees none n k = (n ≡ 0) × (k ≡ 0)
Agrees (some (pos v)) n k = (0 < v) × (v ≡ n) × (k ≡ 0)
Agrees (some (negsuc v)) n k = (v ≡ 0) × (n ≡ 0) × (k ≡ 1)

-- The table says of every block how it is locked.
abbrev pub IsConsistent : System → Type 0
IsConsistent σ = (b : BlockId) → Agrees (σ.table b) (total b s σ.managers) (total b x σ.managers)
