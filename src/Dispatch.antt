-- ===== src/Dispatch.antt =====
-- include/dispatchTask.hpp: `process_handle`, `dispatch_task` and the registration of a task with
-- the resources that it is called with.
pub mod Register
pub mod Tests
use rg.Prelude.{ℕ, ◌+◌, ◌%◌, ◌^◌, ◌==◌, if◌then◌else◌, Bool, false, List, [], ◌∷◌}
use rg.Prelude.Exec.{Exec, ret, ◌>>=◌}
use rg.Access.{AccessMode}
use rg.Node.{TaskAccess, ResourceNode, World, add_task}
use rg.WaitCounter.{invalid_wait_state, add32, sub32}

-- The resource nodes by address, and the memory that they share.
pub record Store : Type 0 where
  pub nodes : ℕ → ResourceNode
  pub world : World

-- What a callable is called with: a plain value, or a resource access, by the address of the node
-- of its resource (`getUserQueue`) and its mode.
pub data Argument : Type 0 where
  plain : Argument
  access : ℕ → AccessMode → Argument

-- `resource_counter` after `process_handle` ran on every argument. It is a `uint16_t`.
unfoldable pub resource_counter : List Argument → ℕ
resource_counter [] = 0
resource_counter (plain ∷ args) = resource_counter args
resource_counter (access node mode ∷ args) = (resource_counter args + 1) % 2 ^ 16

-- The coroutine that the callable returns: its handle, and the address of its `waitCounter`.
pub record Coroutine : Type 0 where
  pub handle : ℕ
  pub wait_counter_p : ℕ

abbrev pub task_access : Coroutine → AccessMode → TaskAccess
task_access co mode = record {
  handle = co.handle;
  wait_counter_p = co.wait_counter_p;
  access_mode = mode;
  remove_state = false;
}

abbrev pub set_counter : World → ℕ → ℕ → World
set_counter w p c = record w { counters = λ q. if p == q then c else w.counters q }

abbrev pub set_node : (ℕ → ResourceNode) → ℕ → ResourceNode → ℕ → ResourceNode
set_node nodes i n j = if i == j then n else nodes j

-- The fold over the arguments: the task is added to the node of each resource. The list is what
-- `resourceNodes` holds in the end.
unfoldable pub register : Coroutine → List Argument → Store → Exec (Store × List ℕ)
register co [] s = ret (s, [])
register co (plain ∷ args) s = register co args s
register co (access node mode ∷ args) s = do
  (n, w) ← add_task (s.nodes node) s.world (task_access co mode)
  (s', nodes) ← register co args (record { nodes = set_node s.nodes node n; world = w })
  ret (s', node ∷ nodes)

-- `dispatch_task` from the call of the callable on, whose promise starts its counter at
-- `INVALID_WAIT_STATE`: the store, `resourceNodes`, and `resReady`.
unfoldable pub dispatch_task : Coroutine → List Argument → Store → Exec (Store × List ℕ × Bool)
dispatch_task co args s = do
  let p = co.wait_counter_p
  let start = add32 invalid_wait_state (resource_counter args)
  (s', nodes) ← register co args (record s { world = set_counter s.world p start })
  let wc = s'.world.counters p
  let w' = set_counter s'.world p (sub32 wc invalid_wait_state)
  ret (record s' { world = w' }, nodes, wc == invalid_wait_state)
