-- ===== src/Lock/System/Requests.antt =====
-- When a request is granted, and what a release leaves.
use simpledb.Prelude.{
  ℕ, zero, suc, ◌<◌, ◌≡◌, ◌↔◌, refl, ap, ◌∙◌, true, false, List, [], ◌∷◌, some, arith, get_elem?,
  set, replicate, length, get_elem?-set,
}
use simpledb.File.Block.{BlockId, block_eq_iff}
use simpledb.Lock.{
  LockTable, Mode, s, x, Locks, contains, manager_has_exclusive_lock, manager_shared_lock,
  manager_exclusive_lock, upgrade, unlock, mode_of, shared_lock, exclusive_lock, set_exclusive,
  release,
}
use simpledb.Lock.System.{System, unlock_next, step, run, count, total, IsConsistent}
use simpledb.Lock.System.Exclusion.{total-set}

-- A transaction without a lock on the block gets a shared one exactly when no transaction has
-- an exclusive one.
pub shared_granted_iff :
    (σ : System) (b : BlockId) (ls : Locks)
    → IsConsistent σ
    → contains ls b ≡ false
    → ((manager_shared_lock σ.table ls b).granted ≡ true) ↔ (total b x σ.managers ≡ 0)
unfolding manager_shared_lock shared_lock
shared_granted_iff σ b ls h new = (λ e. ground (arith, h b), λ e. ground (arith, h b))

count_of_s : (b : BlockId) (ls : Locks) → mode_of b ls ≡ some s → 0 < count b s ls
unfolding mode_of
count_of_s b [] h = cc
count_of_s b ((c, m) ∷ ls) h = ground (arith, count_of_s b ls)

-- A transaction with a shared lock on the block gets the exclusive one exactly when its shared
-- lock is the only one.
pub upgrade_granted_iff :
    (σ : System) (i : ℕ) (b : BlockId) (ls : Locks)
    → IsConsistent σ
    → get_elem? σ.managers i ≡ some ls
    → mode_of b ls ≡ some s
    → ((upgrade σ.table ls b).granted ≡ true) ↔ (total b s σ.managers ≡ 1)
unfolding upgrade exclusive_lock
upgrade_granted_iff σ i b ls h found held = (
  λ e. ground (arith, h b, total-set b s σ.managers i ls [] found, count_of_s b ls held),
  λ e. ground (arith, h b, total-set b s σ.managers i ls [] found, count_of_s b ls held),
)

module _ {ℓ} {A : Type ℓ} where
  set_same : (l : List A) (i : ℕ) (a : A) → get_elem? l i ≡ some a → set l i a ≡ l
  set_same [] i a h = refl
  set_same (y ∷ l) zero a h = ground arith
  set_same (y ∷ l) (suc i) a h = ap (◌∷◌ y) (set_same l i a h)

  set-set : (l : List A) (i : ℕ) (a b : A) → set (set l i a) i b ≡ set l i b
  set-set [] i a b = refl
  set-set (y ∷ l) zero a b = refl
  set-set (y ∷ l) (suc i) a b = ap (◌∷◌ y) (set-set l i a b)

step-unlock_next :
    (σ : System) (i : ℕ) (b : BlockId) (m : Mode) (ls : Locks)
    → get_elem? σ.managers i ≡ some ((b, m) ∷ ls)
    → step (unlock_next i) σ ≡ record { table = unlock σ.table b; managers = set σ.managers i ls }
unfolding step
step-unlock_next σ i b m ls h = rw (step, h) refl

-- The rounds of `Release`, one after the other, do what `Release` does, and leave the
-- transaction without a lock.
pub run-unlock_next :
    (ls : Locks) (σ : System) (i : ℕ)
    → get_elem? σ.managers i ≡ some ls
    → run (replicate (length ls) (unlock_next i)) σ
      ≡ record { table = release σ.table ls; managers = set σ.managers i [] }
unfolding run release
run-unlock_next [] σ i h = rw (set_same σ.managers i [] h)
run-unlock_next ((b, m) ∷ ls) σ i h =
    ap (run (replicate (length ls) (unlock_next i))) (step-unlock_next σ i b m ls h)
    ∙ run-unlock_next ls (record { table = unlock σ.table b; managers = set σ.managers i ls }) i
        (get_elem?-set σ.managers i ((b, m) ∷ ls) ls h)
    ∙ rw (set-set σ.managers i ls [])

mode_of-set_exclusive : (b : BlockId) (ls : Locks) → mode_of b (set_exclusive b ls) ≡ some x
unfolding mode_of set_exclusive
mode_of-set_exclusive b [] = ground (arith, block_eq_iff b b)
mode_of-set_exclusive b ((c, m) ∷ ls) = ground (arith, mode_of-set_exclusive b ls)

-- An exclusive request that returns leaves its transaction with an exclusive lock; one that is
-- aborted leaves it without.
pub manager_exclusive_lock_lem :
    (t : LockTable) (ls : Locks) (b : BlockId)
    → manager_has_exclusive_lock (manager_exclusive_lock t ls b).locks b
      ≡ (manager_exclusive_lock t ls b).granted
unfolding manager_exclusive_lock upgrade shared_lock exclusive_lock
manager_exclusive_lock_lem t ls b =
    ground
      (arith, mode_of-set_exclusive b ls, mode_of-set_exclusive b ((b, s) ∷ ls), block_eq_iff b b)
