-- ===== src/Deregister.antt =====
-- include/Task.hpp: the destructor of a promise, on the nodes of include/ResourceNode.hpp that it is
-- registered with and on its parent's counter.
pub mod Leaves
mod Tests
use rg.Prelude.{ℕ, List, [], ◌∷◌}
use rg.Prelude.Exec.{Exec, ret, ◌>>=◌}
use rg.Node.{ResourceNode, World, remove_task}
use rg.Dispatch.{Store, set_node}
use rg.Handle.{Handle, Memory, decrement_ref}

-- The body of `~promise_type`: `remove_task` on each of `resourceNodes`.
unfoldable pub deregister : ℕ → List ℕ → Store → Exec Store
deregister handle [] s = ret s
deregister handle (node ∷ nodes) s = do
  (n, w) ← remove_task (s.nodes node) s.world handle
  deregister handle nodes (record { nodes = set_node s.nodes node n; world = w })

-- The destruction of the promise: after the body the members are destroyed, and `parent` with them;
-- `self` is null by then.
unfoldable pub destroy_promise : ℕ → List ℕ → Handle → Store → Memory → Exec (Store × Memory)
destroy_promise handle nodes parent s m = do
  s' ← deregister handle nodes s
  ret (s', (decrement_ref parent m).1)
