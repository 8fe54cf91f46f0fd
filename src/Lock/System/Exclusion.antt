-- ===== src/Lock/System/Exclusion.antt =====
-- The table counts the locks that the transactions hold, in every interleaving, so an exclusive
-- lock excludes all others.
use simpledb.Prelude.{
  ℕ, zero, suc, ◌+◌, ◌≤◌, ◌<◌, ◌≡◌, ◌≢◌, refl, ap, true, false, not, ◌&&◌, List, [], ◌∷◌, Option,
  none, some, arith, if◌then◌else◌, get_elem?, set, replicate, Bool-cases, inl, inr, Option-cases,
}
use simpledb.Prelude.Int.{◌+ℤ◌, ◌-ℤ◌}
use simpledb.File.Block.{BlockId, block_eq, block_eq_iff}
use simpledb.Lock.{
  Mode, s, x, Locks, Outcome, contains, manager_has_exclusive_lock, manager_shared_lock, upgrade,
  unlock, mode_of, shared_lock, exclusive_lock, set_exclusive, is_some, is_x,
}
use simpledb.Lock.System.{
  System, Event, shared, exclusive, unlock_next, step, run, initial, count, total, Agrees,
  IsConsistent, unlock_one, exclude, put_outcome,
}

pub total-set :
    (c : BlockId) (m : Mode) (lss : List Locks) (i : ℕ) (ls ls' : Locks)
    → get_elem? lss i ≡ some ls
    → total c m (set lss i ls') + count c m ls ≡ total c m lss + count c m ls'
total-set c m [] i ls ls' h = cc
total-set c m (l ∷ lss) zero ls ls' h = ground arith
total-set c m (l ∷ lss) (suc i) ls ls' h = omega (arith, total-set c m lss i ls ls' h)

module _ (σ : System) (i : ℕ) (b : BlockId) (ls : Locks) (found : get_elem? σ.managers i ≡ some ls)
    (h : IsConsistent σ) (c : BlockId) where
  shared-Agrees :
      let o : Outcome = manager_shared_lock σ.table ls b in
      Agrees
        (o.table c)
        (total c s (set σ.managers i o.locks))
        (total c x (set σ.managers i o.locks))
  unfolding manager_shared_lock shared_lock ◌+ℤ◌
  shared-Agrees = ground (
    arith,
    total-set c s σ.managers i ls ls found,
    total-set c x σ.managers i ls ls found,
    total-set c s σ.managers i ls ((b, s) ∷ ls) found,
    total-set c x σ.managers i ls ((b, s) ∷ ls) found,
    h b,
    h c,
    block_eq_iff b c,
  )

  unlock-Agrees :
      (m : Mode) (rest : Locks)
      → ls ≡ (b, m) ∷ rest
      → Agrees
          (unlock σ.table b c)
          (total c s (set σ.managers i rest))
          (total c x (set σ.managers i rest))
  unfolding unlock ◌-ℤ◌
  unlock-Agrees m rest e = ground (
    arith,
    total-set c s σ.managers i ls rest found,
    total-set c x σ.managers i ls rest found,
    ap (count c s) e,
    ap (count c x) e,
    h b,
    h c,
    block_eq_iff b c,
  )

count-set_exclusive :
    (b c : BlockId) (ls : Locks)
    → mode_of b ls ≡ some s
    → (count c s (set_exclusive b ls) + (if block_eq b c then 1 else 0) ≡ count c s ls)
      × (count c x (set_exclusive b ls) ≡ count c x ls + (if block_eq b c then 1 else 0))
unfolding mode_of set_exclusive
count-set_exclusive b c [] h = cc
count-set_exclusive b c ((e, m) ∷ ls) h =
    ground (arith, block_eq_iff e b, block_eq_iff e c, block_eq_iff b c, count-set_exclusive b c ls)

shared_only : (o : Option Mode) → (is_some o && not (is_x o)) ≡ true → o ≡ some s
unfolding is_some is_x
shared_only none h = cc
shared_only (some s) h = refl
shared_only (some x) h = cc

-- A block that is locked, but not exclusively, is locked by "S".
mode_of_s :
    (ls : Locks) (b : BlockId)
    → (contains ls b && not (manager_has_exclusive_lock ls b)) ≡ true
    → mode_of b ls ≡ some s
unfolding contains manager_has_exclusive_lock mode_of
mode_of_s ls b h = shared_only (mode_of b ls) h

module _ (σ : System) (i : ℕ) (b : BlockId) (ls : Locks) (found : get_elem? σ.managers i ≡ some ls)
    (h : IsConsistent σ) (c : BlockId) where
  upgrade-Agrees :
      mode_of b ls ≡ some s
      → let o : Outcome = upgrade σ.table ls b in
        Agrees
          (o.table c)
          (total c s (set σ.managers i o.locks))
          (total c x (set σ.managers i o.locks))
  unfolding upgrade exclusive_lock
  upgrade-Agrees held = ground (
    arith,
    total-set c s σ.managers i ls ls found,
    total-set c x σ.managers i ls ls found,
    total-set c s σ.managers i ls (set_exclusive b ls) found,
    total-set c x σ.managers i ls (set_exclusive b ls) found,
    total-set b s σ.managers i ls [] found,
    count-set_exclusive b c ls held,
    count-set_exclusive b b ls held,
    h b,
    h c,
    block_eq_iff b c,
    block_eq_iff b b,
  )

exclude-IsConsistent :
    (σ : System) (i : ℕ) (b : BlockId) (ls : Locks)
    → get_elem? σ.managers i ≡ some ls
    → IsConsistent σ
    → IsConsistent (exclude σ i b (some ls))
unfolding exclude put_outcome
exclude-IsConsistent σ i b ls e h =
    elim (Bool-cases (contains ls b && not (manager_has_exclusive_lock ls b))) [
      | inl ready ↦ rw ready (λ c. upgrade-Agrees σ i b ls e h c (mode_of_s ls b ready))
      | inr idle ↦ rw idle h
    ]

unlock_one-IsConsistent :
    (σ : System) (i : ℕ) (ls : Locks)
    → get_elem? σ.managers i ≡ some ls
    → IsConsistent σ
    → IsConsistent (unlock_one σ i (some ls))
unfolding unlock_one
unlock_one-IsConsistent σ i [] e h = h
unlock_one-IsConsistent σ i ((b, m) ∷ rest) e h =
    λ c. unlock-Agrees σ i b ((b, m) ∷ rest) e h c m rest refl

-- Every event keeps the table consistent with the locks that are held.
pub step-IsConsistent : (e : Event) (σ : System) → IsConsistent σ → IsConsistent (step e σ)
unfolding step
step-IsConsistent (shared i b) σ h = elim (Option-cases (get_elem? σ.managers i)) [
  | inl out ↦ rw out h
  | inr (ls, e) ↦ rw e (λ c. shared-Agrees σ i b ls e h c)
]
step-IsConsistent (exclusive i b) σ h = elim (Option-cases (get_elem? σ.managers i)) [
  | inl out ↦ rw out h
  | inr (ls, e) ↦ rw e (exclude-IsConsistent σ i b ls e h)
]
step-IsConsistent (unlock_next i) σ h = elim (Option-cases (get_elem? σ.managers i)) [
  | inl out ↦ rw out h
  | inr (ls, e) ↦ rw e (unlock_one-IsConsistent σ i ls e h)
]

run-IsConsistent : (es : List Event) (σ : System) → IsConsistent σ → IsConsistent (run es σ)
unfolding run
run-IsConsistent [] σ h = h
run-IsConsistent (e ∷ es) σ h = run-IsConsistent es (step e σ) (step-IsConsistent e σ h)

initial-IsConsistent : (n : ℕ) → IsConsistent (initial n)
initial-IsConsistent n b = (none_held n s, none_held n x)
  where
    none_held : (k : ℕ) (m : Mode) → total b m (replicate k []) ≡ 0
    none_held zero m = refl
    none_held (suc k) m = omega (arith, none_held k m)

-- The locks of two transactions are two parts of the total.
total-ge-two :
    (c : BlockId) (m : Mode) (lss : List Locks) (i j : ℕ) (ls ls' : Locks)
    → i ≢ j
    → get_elem? lss i ≡ some ls
    → get_elem? lss j ≡ some ls'
    → count c m ls + count c m ls' ≤ total c m lss
total-ge-two c m [] i j ls ls' d h k = cc
total-ge-two c m (l ∷ lss) zero zero ls ls' d h k = absurd (d refl)
total-ge-two c m (l ∷ lss) zero (suc j) ls ls' d h k = ground (arith, total-set c m lss j ls' [] k)
total-ge-two c m (l ∷ lss) (suc i) zero ls ls' d h k = ground (arith, total-set c m lss i ls [] h)
total-ge-two c m (l ∷ lss) (suc i) (suc j) ls ls' d h k =
    omega (arith, total-ge-two c m lss i j ls ls' (λ e. d (ap suc e)) h k)

count-of-x : (b : BlockId) (ls : Locks) → manager_has_exclusive_lock ls b ≡ true → 0 < count b x ls
unfolding manager_has_exclusive_lock mode_of is_x
count-of-x b [] h = cc
count-of-x b ((c, s) ∷ ls) h = ground (arith, count-of-x b ls)
count-of-x b ((c, x) ∷ ls) h = ground (arith, count-of-x b ls)

count-of-contains :
    (b : BlockId) (ls : Locks) → contains ls b ≡ true → 0 < count b s ls + count b x ls
unfolding contains mode_of is_some
count-of-contains b [] h = cc
count-of-contains b ((c, s) ∷ ls) h = ground (arith, count-of-contains b ls)
count-of-contains b ((c, x) ∷ ls) h = ground (arith, count-of-contains b ls)

-- Whatever the interleaving: while a transaction has an exclusive lock on a block, no other has
-- any lock on it.
pub exclusive_alone :
    (n : ℕ) (es : List Event) (b : BlockId) (i j : ℕ) (mine theirs : Locks)
    → i ≢ j
    → get_elem? (run es (initial n)).managers i ≡ some mine
    → get_elem? (run es (initial n)).managers j ≡ some theirs
    → manager_has_exclusive_lock mine b ≡ true
    → contains theirs b ≡ false
exclusive_alone n es b i j mine theirs d hi hj ex =
    let σ = run es (initial n) in
    elim (Bool-cases (contains theirs b)) [
      | inr free ↦ free
      | inl held ↦ absurd (
          ground (
            arith,
            run-IsConsistent es (initial n) (initial-IsConsistent n) b,
            total-ge-two b s σ.managers i j mine theirs d hi hj,
            total-ge-two b x σ.managers i j mine theirs d hi hj,
            count-of-x b mine ex,
            count-of-contains b theirs held,
          ))
    ]
