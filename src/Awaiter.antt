-- ===== src/Awaiter.antt =====
-- include/barrier.hpp: `BarrierAwaiter`, which registers a task of its own with the resources that
-- a barrier waits for. The body of that task puts the coroutine at the barrier into the queue.
pub mod Enqueue
mod Tests
use rg.Prelude.{ℕ, ◌==◌, if◌then◌else◌, Bool, List, [], ◌∷◌, ◌++◌, Option, none, some}
use rg.Prelude.Exec.{Exec, ret, ◌>>=◌}
use rg.Access.{write}
use rg.Node.{add_task}
use rg.WaitCounter.{invalid_wait_state, add32, sub32}
use rg.Dispatch.{Store, Coroutine, task_access, set_counter, set_node}
use rg.Barrier.{Entry, emplace_back}

-- An argument of a barrier: a resource, by the address of its node, or a container of resources.
pub data Resources : Type 0 where
  resource : ℕ → Resources
  container : List ℕ → Resources

-- `processResource` for a resource. It returns the store; the node goes to `resourceNodes`.
unfoldable pub process_resource : Coroutine → ℕ → Store → Exec Store
process_resource co node s = do
  let p = co.wait_counter_p
  let w = set_counter s.world p (add32 (s.world.counters p) 1)
  (n, w') ← add_task (s.nodes node) w (task_access co write)
  ret (record { nodes = set_node s.nodes node n; world = w' })

-- `processResource` for a container, and the fold over the arguments, with `resourceNodes`.
unfoldable pub process_container : Coroutine → List ℕ → Store → Exec (Store × List ℕ)
process_container co [] s = ret (s, [])
process_container co (node ∷ nodes) s = do
  s' ← process_resource co node s
  (s'', listed) ← process_container co nodes s'
  ret (s'', node ∷ listed)

unfoldable pub process_all : Coroutine → List Resources → Store → Exec (Store × List ℕ)
process_all co [] s = ret (s, [])
process_all co (resource node ∷ rs) s = do
  s' ← process_resource co node s
  (s'', listed) ← process_all co rs s'
  ret (s'', node ∷ listed)
process_all co (container nodes ∷ rs) s = do
  (s', listed) ← process_container co nodes s
  (s'', more) ← process_all co rs s'
  ret (s'', listed ++ more)

-- `await_suspend`, from the call of `barrierTask` on, whose promise starts its counter at
-- `INVALID_WAIT_STATE`: the store, `resourceNodes`, and the handle that is resumed, `none` for
-- `std::noop_coroutine()`.
unfoldable pub await_suspend : Coroutine → List Resources → Store → Exec (Store × List ℕ × Option ℕ)
await_suspend co rs s = do
  let p = co.wait_counter_p
  (s', listed) ← process_all co rs (record s { world = set_counter s.world p invalid_wait_state })
  let wc = s'.world.counters p
  let w = set_counter s'.world p (sub32 wc invalid_wait_state)
  ret (record s' { world = w }, listed, if wc == invalid_wait_state then some co.handle else none)

-- The body of `barrierTask`, for the continuation with this entry.
unfoldable pub barrier_task : Entry → List Entry → List Entry
unfolding emplace_back
barrier_task continuation queue = emplace_back queue continuation
