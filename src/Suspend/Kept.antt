-- ===== src/Suspend/Kept.antt =====
-- include/dispatchTask.hpp: an asynchronous dispatch keeps its continuation.
use rg.Prelude.{ℕ, ◌+◌, ◌<◌, if◌then◌else◌, Bool, true, false, length, some, none, arith, ◌≡◌, refl}
use rg.Prelude.Exec.{ret}
use rg.Pool.{Deque, Pool, worker_thread, add_task}
use rg.Pool.Count.{copies, copies_in, total}
use rg.Pool.Work.{at_emplace}
use rg.Suspend.{co_await}

-- A coroutine on a worker of the pool dispatches a task and awaits it asynchronously. If the task is
-- ready, the worker runs it next and the coroutine is in the pool; if not, the worker goes on with
-- the coroutine. Either way no handle is lost or made twice: the pool and the worker together hold
-- the coroutine once more, and the task once more if it was ready.
pub co_await_lem :
    {D : Type 0} (deque : Deque D) (x index : ℕ) (ready : Bool) (coro h : ℕ) (pool : Pool D)
    → index < length pool.thread_queues
    → (pool' : Pool D) × (next : ℕ) × (co_await deque (worker_thread index) ready coro h pool
        ≡ ret (pool', next))
      × (next ≡ (if ready then coro else h))
      × (length pool'.thread_queues ≡ length pool.thread_queues)
      × (total deque x pool' + copies_in x (some next)
          ≡ total deque x pool
            + copies_in x (some h)
            + copies_in x (if ready then some coro else none))
unfolding co_await add_task total copies copies_in
co_await_lem deque x index false coro h pool lt = (pool, h, refl, refl, refl, omega arith)
co_await_lem deque x index true coro h pool lt =
    let (ds, e, len, sum) = at_emplace deque x h index pool.thread_queues lt in
    (record pool { thread_queues = ds }, coro, rw e refl, refl, len, omega arith)
