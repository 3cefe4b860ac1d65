-- ===== src/InitTask/Root.antt =====
-- include/initTask.hpp: who owns the coroutine of an `InitTask`, and the wait of its destructor. The
-- main thread holds the object, a worker runs the task, and other workers end its children.
pub mod Owners
pub mod Ends
use rg.Prelude.{
  ℕ, ◌+◌, ◌^◌, ◌<◌, ◌≡◌, ◌≢◌, if◌then◌else◌, ltb, Bool, true, false, List, [], ◌∷◌, ◌++◌, length,
  Option, none, some,
}
use rg.Handle.{
  Handle, null_handle, Memory, set_count, copy_construct, move_construct, copy_assign, move_assign,
  decrement_ref, reset,
}
use rg.Life.{Operand, named, temporary}

-- Where the task is: before `await_suspend` of `DetachToPoolAwaiter`, in the pool, running, after
-- `final_suspend`, and after `await_suspend` of `FinalDelete`.
pub data Stage : Type 0 where
  created in_pool running finishing ended : Stage

-- Where the main thread is: before `~InitTask`, in the loop of it, after `coroOutsideTask` was
-- cleared, and after the reset of `coro`.
pub data Main : Type 0 where
  using waiting cleared left : Main

-- `self` and the flags of the promise, the handle in `FinalDelete`, the one in the object, those
-- that children hold as their `parent`, and the handles that were given to `addTask`.
pub record Root : Type 0 where
  pub memory : Memory
  pub self : Handle
  pub task_done : Bool
  pub outside : Bool
  pub final : Handle
  pub coro : Handle
  pub parents : List Handle
  pub added : List ℕ
  pub stage : Stage
  pub main : Main

-- The promise, with its counter at 1, and `get_return_object`.
unfoldable pub new_root : ℕ → Memory → Root
new_root a m =
    let handle : Handle = record { address = a; ref_count = a } in
    let (self, _, m1) = move_assign null_handle handle (set_count m a 1) in
    let (coro, m2) = copy_construct self m1 in
    record {
      memory = m2;
      self = self;
      task_done = false;
      outside = true;
      final = null_handle;
      coro = coro;
      parents = [];
      added = [];
      stage = created;
      main = using;
    }

-- `initial_suspend` gives a `DetachToPoolAwaiter`, whose `await_suspend` calls `addTask`.
unfoldable pub detach : ℕ → Root → Root
detach a r = record r { added = r.added ++ (a ∷ []); stage = in_pool }

-- `await_transform` of a dispatch: the child's `parent` is null before. The overload for a
-- `DispatchAwaiter` takes an lvalue; a temporary goes through the generic one, which only forwards it.
unfoldable pub dispatch : Operand → Bool → Root → Root
dispatch temporary finished_on_return r = r
dispatch named finished_on_return r =
    let (parent, m) = copy_assign null_handle r.self r.memory in
    if finished_on_return then r else record r { memory = m; parents = parent ∷ r.parents }

-- `final_suspend` moves `self` into the awaiter that it returns.
unfoldable pub final_suspend : Root → Root
final_suspend r =
    let (final, self) = move_construct r.self in
    record r { task_done = true; self = self; final = final; stage = finishing }

-- One step of one of the threads, for the coroutine at `a`. Fewer than 2^32 - 2 children are alive.
pub data Step (a : ℕ) (r : Root) : Root → Type 0 where
  detaches : r.stage ≡ created → Step a r (detach a r)
  resumes : r.stage ≡ in_pool → Step a r (record r { stage = running })
  dispatches :
      (operand : Operand) (finished_on_return : Bool)
      → r.stage ≡ running
      → length r.parents + 3 < 2 ^ 32
      → Step a r (dispatch operand finished_on_return r)
  child_ends :
      {parent : Handle} {rest : List Handle}
      → r.parents ≡ parent ∷ rest
      → Step a r (record r { memory = (decrement_ref parent r.memory).1; parents = rest })
  finishes : r.stage ≡ running → Step a r (final_suspend r)
  lets_go :
      r.stage ≡ finishing
      → Step a r (record r {
        memory = (reset r.final r.memory).1;
        final = (reset r.final r.memory).0;
        stage = ended;
      })
  is_destroyed :
      r.main ≡ using
      → r.stage ≢ created
      → r.coro.address ≢ 0
      → Step a r (record r { main = waiting })
  yields : r.main ≡ waiting → 1 < r.memory.counts r.coro.ref_count → Step a r r
  passes :
      r.main ≡ waiting
      → r.memory.counts r.coro.ref_count < 2
      → Step a r (record r { outside = false; main = cleared })
  resets :
      r.main ≡ cleared
      → Step a r (record r {
        memory = (reset r.coro r.memory).1;
        coro = (reset r.coro r.memory).0;
        main = left;
      })

-- The states that are reached from the call of the coroutine on.
pub data Lives (a : ℕ) (m : Memory) : Root → Type 0 where
  born : Lives a m (new_root a m)
  lives_on : {r r' : Root} → Lives a m r → Step a r r' → Lives a m r'
