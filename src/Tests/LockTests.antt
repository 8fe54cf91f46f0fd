-- ===== src/Tests/LockTests.antt =====
-- Two transactions and one block.
use simpledb.Prelude.{◌≡◌, refl, ◌↔◌, true, false, List, [], ◌∷◌, none, some, arith, if◌then◌else◌}
use simpledb.Prelude.Int.{pos, int_eq, ◌+ℤ◌, ◌-ℤ◌}
use simpledb.Prelude.Text.{codes, text_eq}
use simpledb.File.Block.{BlockId, block_eq, block_eq_iff}
use simpledb.Lock.{
  s, x, contains, manager_has_exclusive_lock, manager_shared_lock, manager_exclusive_lock, mode_of,
  shared_lock, exclusive_lock, unlock, upgrade, set_exclusive, release,
}
use simpledb.Lock.System.Exclusion.{exclusive_alone, step-IsConsistent}
use simpledb.Lock.System.Requests
use simpledb.Lock.System.{System, Event, shared, exclusive, step, run, initial, total, IsConsistent}

abbrev block : BlockId
block = record { filename = codes "t"; block_num = pos 1 }

program : Unit {0}
unfolding text_eq int_eq block_eq ◌+ℤ◌ ◌-ℤ◌ contains manager_has_exclusive_lock manager_shared_lock
    manager_exclusive_lock shared_lock exclusive_lock unlock upgrade set_exclusive release step run
    mode_of
program = tt

-- Transaction 0 gets the block exclusively; transaction 1 asks for it in vain.
abbrev events : List Event
events = shared 0 block ∷ exclusive 0 block ∷ shared 1 block ∷ []

exclusive_alone_example : contains [] block ≡ false
unfolding program
exclusive_alone_example =
    exclusive_alone 2 events block 0 1 ((block, x) ∷ []) [] (omega arith) refl refl refl

initial-IsConsistent : IsConsistent (initial 2)
initial-IsConsistent b = (omega arith, omega arith)

step-IsConsistent_example : IsConsistent (step (shared 0 block) (initial 2))
step-IsConsistent_example = step-IsConsistent (shared 0 block) (initial 2) initial-IsConsistent

shared_granted_iff_example :
    ((manager_shared_lock (λ _. none) [] block).granted ≡ true) ↔ (total block x ([] ∷ [] ∷ []) ≡ 0)
unfolding program
shared_granted_iff_example =
    Requests.shared_granted_iff (initial 2) block [] initial-IsConsistent refl

abbrev one_shared : System
one_shared = record {
  table = λ c. if block_eq block c then some (pos 1) else none;
  managers = ((block, s) ∷ []) ∷ [];
}

one_shared-IsConsistent : IsConsistent one_shared
one_shared-IsConsistent b = ground arith

upgrade_granted_iff_example :
    ((upgrade one_shared.table ((block, s) ∷ []) block).granted ≡ true)
    ↔ (total block s one_shared.managers ≡ 1)
unfolding program
upgrade_granted_iff_example =
    Requests.upgrade_granted_iff one_shared 0 block ((block, s) ∷ []) one_shared-IsConsistent refl
      refl

manager_exclusive_lock_lem_example :
    manager_has_exclusive_lock (manager_exclusive_lock one_shared.table [] block).locks block
    ≡ (manager_exclusive_lock one_shared.table [] block).granted
manager_exclusive_lock_lem_example = Requests.manager_exclusive_lock_lem one_shared.table [] block

block_eq_iff_example : (block_eq block block ≡ true) ↔ (block ≡ block)
block_eq_iff_example = block_eq_iff block block
