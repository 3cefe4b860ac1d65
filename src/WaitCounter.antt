-- ===== src/WaitCounter.antt =====
-- include/waitCounter.hpp, and the wait counter of a task: `promise_type::waitCounter` in
-- include/Task.hpp with the three places that change it. `dispatch_task` and `BarrierAwaiter`
-- count resources up and in the end take `INVALID_WAIT_STATE` off; `ResourceNode` counts down.
pub mod Launch
mod Tests
use rg.Prelude.{ℕ, ◌+◌, ◌-◌, ◌%◌, ◌^◌, ◌==◌, if◌then◌else◌, Bool, false, List, [], ◌∷◌}

abbrev pub invalid_wait_state : ℕ
invalid_wait_state = 2 ^ 31

-- `fetch_add` and `fetch_sub` on a `std::atomic<uint32_t>`.
abbrev pub add32 : ℕ → ℕ → ℕ
add32 a b = (a + b) % 2 ^ 32

abbrev pub sub32 : ℕ → ℕ → ℕ
sub32 a b = (a + 2 ^ 32 - b) % 2 ^ 32

-- The atomic updates of one counter, in the order in which they take effect.
pub data Event : Type 0 where
  claimed : Event  -- `fetch_add(1)` before a resource is asked for
  granted : Event  -- `fetch_sub(1)` in `add_task`, the resource was free
  notified : Event  -- `fetch_sub(1)` in `remove_task`, the resource became free
  registered : Event  -- `fetch_sub(INVALID_WAIT_STATE)`, all resources have been asked for

unfoldable pub update : Event → ℕ → ℕ
update claimed c = add32 c 1
update granted c = sub32 c 1
update notified c = sub32 c 1
update registered c = sub32 c invalid_wait_state

-- Whether the thread that makes the update has to run the task, by the old value that it got.
unfoldable pub launches : Event → ℕ → Bool
launches notified c = c == 1
launches registered c = c == invalid_wait_state
launches _ c = false

-- How many threads of a sequence of updates set out to run the task.
unfoldable pub launch_count : List Event → ℕ → ℕ
unfolding update launches
launch_count [] c = 0
launch_count (e ∷ es) c = (if launches e c then 1 else 0) + launch_count es (update e c)

unfoldable pub final_count : List Event → ℕ → ℕ
unfolding update
final_count [] c = c
final_count (e ∷ es) c = final_count es (update e c)
