-- ===== src/Deregister/Tests.antt =====
-- include/Task.hpp: a reader of two resources ends, before a writer of the one and beside a reader of
-- the other.
use rg.Prelude.{ℕ, Bool, ◌==◌, if◌then◌else◌, [], ◌∷◌, ◌≡◌, refl, true, false, arith}
use rg.Prelude.Exec.{ret}
use rg.Handle.{Memory, decrement_ref}
use rg.Node.{ResourceNode}
use rg.Node.View.{view, IsValid}
use rg.Node.Tests.{fresh, two_readers, one_reader, two_readers-IsValid, one_reader-IsValid}
use rg.Dispatch.{Store}
use rg.Life.Owners.{own}
use rg.Deregister.{destroy_promise}
use rg.Deregister.Leaves.{IsOldest, notified_of, left_behind, destroy_promise_lem}

abbrev pick : Bool → ResourceNode
pick b = if b then one_reader else two_readers

abbrev store : Store
store = record { nodes = λ i. pick (i == 1); world = fresh }

pick-IsValid : (b : Bool) → IsValid (pick b)
pick-IsValid true = one_reader-IsValid
pick-IsValid false = two_readers-IsValid

pick-IsOldest : (b : Bool) → IsOldest 1 (pick b)
pick-IsOldest true = record {
  busy = omega arith;
  room = omega arith;
  unmarked = λ h. absurd (omega arith);
  oldest = refl;
}
pick-IsOldest false = record {
  busy = omega arith;
  room = omega arith;
  unmarked = λ h. refl;
  oldest = refl;
}

abbrev memory : Memory
memory = record { counts = λ _. 2; destroyed = [] }

destroy_promise_lem_example :
    (s' : Store) × (destroy_promise 1 (1 ∷ 2 ∷ []) (own 9) store memory
      ≡ ret (s', (decrement_ref (own 9) memory).1))
    × (s'.world ≡ notified_of store.nodes (1 ∷ 2 ∷ []) fresh)
    × ((j : ℕ) → IsValid (s'.nodes j))
    × ((j : ℕ) → view (s'.nodes j) ≡ left_behind store.nodes (1 ∷ 2 ∷ []) j)
destroy_promise_lem_example =
    destroy_promise_lem 1 (1 ∷ 2 ∷ []) (own 9) store memory (λ j. pick-IsValid (j == 1))
      (pick-IsOldest true, (pick-IsOldest false, tt)) (((λ e. omega arith), tt), (tt, tt))
