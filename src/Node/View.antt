-- ===== src/Node/View.antt =====
-- The queue that a node stands for, and the nodes that are in order.
use rg.Prelude.{ℕ, ◌+◌, ◌-◌, ◌≤◌, ◌≡◌, List, length, length-replicate, arith}
use rg.Node.{TaskAccess, ResourceNode, empty_access, num_tasks, init}
use rg.Node.Queue.{Queue, IsSound}
use rg.Node.Window.{window}

abbrev pub running : ResourceNode → List TaskAccess
running n = window n.tasks n.first (n.first_not_ready - n.first)

abbrev pub waiting : ResourceNode → List TaskAccess
waiting n = window n.tasks n.first_not_ready (n.last - n.first_not_ready)

-- The queue that a node stands for.
abbrev pub view : ResourceNode → Queue
view n = record { running = running n; waiting = waiting n }

pub record IsValid (n : ResourceNode) : Type 0 where
  pub sized : length n.tasks ≡ num_tasks
  pub ready_in : n.first ≤ n.first_not_ready
  pub waiting_in : n.first_not_ready ≤ n.last
  pub last_in : n.last ≤ num_tasks
  pub sound : IsSound (view n)

-- A new node is in order.
pub init-IsValid : (i : ℕ) → IsValid (init i)
unfolding init
init-IsValid i = record {
  sized = length-replicate 1024 empty_access;
  ready_in = omega arith;
  waiting_in = omega arith;
  last_in = omega arith;
  sound = record { together = tt; blocked = tt; counted = tt };
}

pub IsValid-gaps :
    {n : ResourceNode}
    → IsValid n
    → (n.first_not_ready ≡ n.first + (n.first_not_ready - n.first))
      × (n.last ≡ n.first_not_ready + (n.last - n.first_not_ready))
IsValid-gaps v = (omega arith, omega arith)

module _ (n : ResourceNode) (a k : ℕ) (ready_to : n.first_not_ready ≡ n.first + a)
    (waiting_to : n.last ≡ n.first_not_ready + k) where
  abbrev pub stretches : Queue
  stretches = record {
    running = window n.tasks n.first a;
    waiting = window n.tasks n.first_not_ready k;
  }

  pub view-eq-stretches : view n ≡ stretches
  view-eq-stretches =
      let e : n.first_not_ready - n.first ≡ a = omega arith in
      let f : n.last - n.first_not_ready ≡ k = omega arith in rw (e, f)
