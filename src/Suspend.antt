-- ===== src/Suspend.antt =====
-- include/dispatchTask.hpp: `DispatchAwaiter<T, false, finishedOnReturn>`, the asynchronous dispatch
-- on a worker thread.
pub mod Kept
use rg.Prelude.{ℕ, if◌then◌else◌, Bool, not}
use rg.Prelude.Exec.{Exec, ret, ◌>>=◌}
use rg.Pool.{Deque, Pool, Thread, add_task}

-- `await_ready`
unfoldable pub await_ready : Bool → Bool
await_ready resources_ready = not resources_ready

module _ {D : Type 0} (deque : Deque D) where
  -- `await_suspend` of the continuation, for a dispatched coroutine: the handle to resume.
  unfoldable pub await_suspend : Thread → ℕ → ℕ → Pool D → Exec (Pool D × ℕ)
  await_suspend thread coro h pool = do pool' ← add_task deque thread h pool; ret (pool', coro)

  -- `co_await` of the awaiter by the coroutine `h`: what its thread runs next.
  unfoldable pub co_await : Thread → Bool → ℕ → ℕ → Pool D → Exec (Pool D × ℕ)
  unfolding await_ready await_suspend
  co_await thread resources_ready coro h pool =
      if await_ready resources_ready then ret (pool, h) else await_suspend thread coro h pool
