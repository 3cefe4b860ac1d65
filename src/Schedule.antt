-- ===== src/Schedule.antt =====
-- include/dispatchTask.hpp and include/Task.hpp on the nodes of include/ResourceNode.hpp: a program
-- that dispatches tasks and ends them, over all its resources.
pub mod Lists
pub mod Enqueued
pub mod Finished
pub mod Inv
pub mod Oldest
pub mod Entered
pub mod Dispatched
pub mod Left
pub mod Kept
pub mod Drain
pub mod Rivals
pub mod Waited
pub mod Compatible
pub mod Ready
pub mod Notified
pub mod Alike
pub mod Launch
pub mod Samples
mod Tests
use rg.Prelude.{
  ℕ, ◌+◌, ◌^◌, ◌<◌, ◌≤◌, ◌==◌, if◌then◌else◌, Bool, List, [], ◌∷◌, ◌++◌, ◌≡◌, ◌≢◌, Option, none,
  some, true, false,
}
use rg.Prelude.Exec.{ret}
use rg.Access.{AccessMode}
use rg.Node.{TaskAccess, World, num_tasks, init}
use rg.Dispatch.{Store, Argument, plain, access, Coroutine, task_access, dispatch_task}
use rg.Dispatch.Register.{accesses, resource_nodes}
use rg.Awaiter.{Resources, await_suspend}
use rg.Awaiter.Enqueue.{nodes_of, writes}
use rg.Deregister.{deregister}
use rg.Deregister.Leaves.{Apart, Distinct}

-- A task that was dispatched and has not ended: its coroutine, what it was called with, the
-- `resourceNodes` of its promise, the `resReady` that its dispatch computed, and how often its
-- handle was passed to the pool before it was dispatched.
pub record Live : Type 0 where
  pub co : Coroutine
  pub args : List Argument
  pub listed : List ℕ
  pub ready : Bool
  pub before : ℕ

-- The resources, and the tasks in the order in which they were dispatched.
pub record System : Type 0 where
  pub store : Store
  pub tasks : List Live

abbrev pub wait_counters : List Live → List ℕ
wait_counters [] = []
wait_counters (t ∷ ts) = t.co.wait_counter_p ∷ wait_counters ts

abbrev pub handles : List Live → List ℕ
handles [] = []
handles (t ∷ ts) = t.co.handle ∷ handles ts

-- How often a number occurs.
abbrev pub times : ℕ → List ℕ → ℕ
times h [] = 0
times h (x ∷ xs) = (if x == h then 1 else 0) + times h xs

abbrev pub Below : ℕ → List ℕ → Type 0
Below N [] = Unit
Below N (i ∷ is) = (i < N) × Below N is

-- What a program has to respect: a task is a live object, with a counter and a handle of its own, and
-- it is called with at most one access to each resource, whose nodes have addresses below `N`.
pub record IsCall (N : ℕ) (t : Live) (ts : List Live) : Type 0 where
  pub counter : t.co.wait_counter_p ≢ 0
  pub fresh : Apart t.co.wait_counter_p (wait_counters ts)
  pub fresh_handle : Apart t.co.handle (handles ts)
  pub few : accesses t.args < 2 ^ 16
  pub distinct : Distinct (resource_nodes t.args)
  pub below : Below N (resource_nodes t.args)

-- The two lists have no number in common.
abbrev pub Disjoint : List ℕ → List ℕ → Type 0
Disjoint [] js = Unit
Disjoint (i ∷ is) js = Apart i js × Disjoint is js

-- No task of the list has an access to one of the nodes.
abbrev pub NoneShares : List Live → List ℕ → Type 0
NoneShares [] js = Unit
NoneShares (t ∷ ts) js = Disjoint (resource_nodes t.args) js × NoneShares ts js

abbrev pub is_some : Option ℕ → Bool
is_some none = false
is_some (some h) = true

-- What a program does to its resources: while every node has a place left behind the new entries, it
-- dispatches a task, or a barrier waits for resources with a task of its own; and a task ends, its promise destroyed, that shares no resource with an
-- earlier task that has not ended.
pub data Step (N : ℕ) : System → System → Type 0 where
  dispatches :
      (t : Live) (s s' : Store) (ts : List Live)
      → IsCall N t ts
      → ((i : ℕ) → (s.nodes i).last + (accesses t.args + 1) ≤ num_tasks)
      → dispatch_task t.co t.args s ≡ ret (s', t.listed, t.ready)
      → t.before ≡ times t.co.handle s.world.added
      → Step N (record { store = s; tasks = ts }) (record { store = s'; tasks = ts ++ (t ∷ []) })
  barriers :
      (t : Live) (rs : List Resources) (next : Option ℕ) (s s' : Store) (ts : List Live)
      → IsCall N t ts
      → t.args ≡ writes (nodes_of rs)
      → ((i : ℕ) → (s.nodes i).last + (accesses t.args + 1) ≤ num_tasks)
      → await_suspend t.co rs s ≡ ret (s', t.listed, next)
      → t.ready ≡ is_some next
      → t.before ≡ times t.co.handle s.world.added
      → Step N (record { store = s; tasks = ts }) (record { store = s'; tasks = ts ++ (t ∷ []) })
  ends :
      (t : Live) (s s' : Store) (earlier later : List Live)
      → NoneShares earlier (resource_nodes t.args)
      → deregister t.co.handle t.listed s ≡ ret s'
      → Step N
          (record { store = s; tasks = earlier ++ (t ∷ later) })
          (record { store = s'; tasks = earlier ++ later })

pub data Steps (N : ℕ) : System → System → Type 0 where
  no_step : (s : System) → Steps N s s
  one_step : (s t u : System) → Step N s t → Steps N t u → Steps N s u

-- Before the first dispatch: the nodes that `createNextResource` initialised.
abbrev pub start : World → System
start w = record { store = record { nodes = init; world = w }; tasks = [] }

-- The entries of a task at the node `j`, and those of several tasks.
abbrev pub entries_of : ℕ → Coroutine → List Argument → List TaskAccess
entries_of j co [] = []
entries_of j co (plain ∷ args) = entries_of j co args
entries_of j co (access node mode ∷ args) =
    if node == j then task_access co mode ∷ entries_of j co args else entries_of j co args

abbrev pub entries_at : ℕ → List Live → List TaskAccess
entries_at j [] = []
entries_at j (t ∷ ts) = entries_of j t.co t.args ++ entries_at j ts
