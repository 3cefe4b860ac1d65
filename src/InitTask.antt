-- ===== src/InitTask.antt =====
-- include/initTask.hpp: `InitTask::get`, called on the main thread while the task runs in the pool.
pub mod Get
pub mod Root
mod Tests
use rg.Prelude.{ℕ, if◌then◌else◌, Bool, true, false, Option, none, some, ◌≡◌}

-- The members of `promise_type` that both threads use.
pub record Promise {ℓ} (T : Type ℓ) : Type ℓ where
  pub result : Option T
  pub task_done : Bool

-- Where the call of `get` stands, and where the task does.
pub data Getter {ℓ} (T : Type ℓ) : Type ℓ where
  testing : Getter T  -- before the test of `task_done`
  waiting : Getter T  -- in `cv.wait`, before a test of the predicate
  asleep : Getter T  -- in `cv.wait`, blocked on the condition variable
  taking : Getter T  -- before `result.value()`
  got : T → Getter T
  threw : Getter T  -- `value()` of an empty optional throws

pub data Runner {ℓ} (T : Type ℓ) : Type ℓ where
  working : Runner T
  returning : Runner T  -- after `return_value`, before `final_suspend`
  done : Runner T

pub record State {ℓ} (T : Type ℓ) : Type ℓ where
  pub promise : Promise T
  pub getter : Getter T
  pub runner : Runner T

module _ {ℓ} {T : Type ℓ} where
  unfoldable pub start : State T
  start = record {
    promise = record { result = none; task_done = false };
    getter = testing;
    runner = working;
  }

  -- `get`: the test, the wait with its predicate, and the value. A thread that is asleep takes no step of
  -- its own.
  unfoldable pub get_step : State T → Option (State T)
  get_step s = elim s.getter [
    | testing ↦ some (record s { getter = if s.promise.task_done then taking else waiting })
    | waiting ↦ some (record s { getter = if s.promise.task_done then taking else asleep })
    | taking ↦ some (record s { getter = value s.promise.result })
    | _ ↦ none
  ]
    where
      value : Option T → Getter T
      value none = threw
      value (some v) = got v

  -- A spurious wake-up of the condition variable: the wait tests its predicate again.
  unfoldable pub wake_step : State T → Option (State T)
  wake_step s = elim s.getter [ asleep ↦ some (record s { getter = waiting }) | _ ↦ none ]

  -- The task, which returns `v`: `return_value`, then `final_suspend`.
  unfoldable pub run_step : T → State T → Option (State T)
  run_step v s = elim s.runner [
    | working ↦
        some (record s { promise = record s.promise { result = some v }; runner = returning })
    | returning ↦ some (record s { promise = record s.promise { task_done = true }; runner = done })
    | done ↦ none
  ]

  -- The states that the two threads reach in any order of their steps. `notify_all` is commented out in
  -- `final_suspend`, so that a thread that is asleep only goes on if it wakes spuriously.
  pub data Reach (v : T) : State T → Type ℓ where
    begin : Reach v start
    get_moves : {s t : State T} → Reach v s → get_step s ≡ some t → Reach v t
    wakes : {s t : State T} → Reach v s → wake_step s ≡ some t → Reach v t
    run_moves : {s t : State T} → Reach v s → run_step v s ≡ some t → Reach v t
