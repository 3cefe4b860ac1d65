-- ===== src/Await.antt =====
-- A coroutine that waits for a task: `workingState` and `continuationHandle` of the promise in
-- include/Task.hpp, `final_suspend`, `GetAwaiter`, and the synchronous `DispatchAwaiter` of
-- include/dispatchTask.hpp. The waiter and the task run on different threads.
pub mod Resume
pub mod Value
pub mod Received
mod Tests
use rg.Prelude.{ℕ, suc, ◌+◌, ◌==◌, if◌then◌else◌, Bool, true, false, not, Option, none, some, ◌≡◌}
use rg.Node.{compare_exchange}

-- The members of `promise_type` that the two threads share. 1 is working, 2 is working with a
-- continuation set, 0 is done. A null `continuationHandle` is `none`.
pub record Promise : Type 0 where
  pub working_state : ℕ
  pub continuation_handle : Option ℕ

abbrev pub new_promise : Promise
new_promise = record { working_state = 1; continuation_handle = none }

-- What a `FinalDelete` resumes after it let go of the task.
pub data Transfer : Type 0 where
  noop : Transfer  -- `std::noop_coroutine()`
  resume : Option ℕ → Transfer  -- a handle, `none` if it is null

-- `promise_type::final_suspend`
unfoldable pub final_suspend : Promise → Promise × Transfer
final_suspend p =
    let (_, state, expected) = compare_exchange p.working_state 1 0 in
    let p' = record p { working_state = state } in
    if expected == 2 then (p', resume p.continuation_handle) else (p', noop)

-- `GetAwaiter::await_ready`
unfoldable pub get_await_ready : Promise → Bool
get_await_ready p = p.working_state == 0

-- The compare-exchange of both `await_suspend` functions: the value that `expectedState` ends with.
unfoldable pub exchange_waiting : Promise → Promise × ℕ
exchange_waiting p =
    let (_, state, expected) = compare_exchange p.working_state 1 2 in
    (record p { working_state = state }, expected)

abbrev pub store_continuation : Promise → ℕ → Promise
store_continuation p h = record p { continuation_handle = some h }

-- How the awaiter came to be: `get`, or a synchronous dispatch whose resources were busy or free.
pub data Kind : Type 0 where
  by_get sync_blocked sync_ready : Kind

-- Where the waiter stands.
pub data Waiter : Type 0 where
  asking : Waiter  -- before `await_ready`
  storing : Waiter  -- before the store of `continuationHandle`
  swapping : Waiter  -- before the compare-exchange
  suspended : Waiter
  went_on : Waiter  -- it runs again, behind the `co_await`

-- Where the task stands. A task that is run by the waiter's thread has not begun before.
pub data Child : Type 0 where
  unborn working done : Child

pub record State : Type 0 where
  pub promise : Promise
  pub waiter : Waiter
  pub child : Child
  pub wakings : ℕ  -- how often the waiter was made to go on
  pub crashed : Bool  -- whether a null handle was resumed

abbrev pub start : Kind → State
start kind = record {
  promise = new_promise;
  waiter = asking;
  child = elim kind [ sync_ready ↦ unborn | _ ↦ working ];
  wakings = 0;
  crashed = false;
}

abbrev pub go_on : State → State
go_on s = record s { waiter = went_on; wakings = s.wakings + 1 }

-- `await_ready` of the three awaiters: only `get` looks at the state.
unfoldable pub is_ready : Kind → Promise → Bool
unfolding get_await_ready
is_ready by_get p = get_await_ready p
is_ready sync_blocked p = false
is_ready sync_ready p = false

-- What `await_suspend` makes of `expectedState`.
unfoldable pub suspend_result : Kind → State → ℕ → State
suspend_result by_get s expected =
    if not (expected == 0) then record s { waiter = suspended } else go_on s
suspend_result sync_blocked s expected =
    if expected == 0 then go_on s else record s { waiter = suspended }
suspend_result sync_ready s expected = record s { waiter = suspended; child = working }

-- The next step of the waiter with handle `h`; `none` if it is suspended or has gone on.
unfoldable pub waiter_step : Kind → ℕ → State → Option State
unfolding is_ready suspend_result exchange_waiting
waiter_step kind h s = elim s.waiter [
  | asking ↦ some (if is_ready kind s.promise then go_on s else record s { waiter = storing })
  | storing ↦ some (record s { promise = store_continuation s.promise h; waiter = swapping })
  | swapping ↦
      let (p, expected) = exchange_waiting s.promise in
      some (suspend_result kind (record s { promise = p }) expected)
  | _ ↦ none
]

-- The end of the task, if it runs. What `final_suspend` returns is resumed.
unfoldable pub child_step : State → Option State
unfolding final_suspend
child_step s = elim s.child [
  | working ↦
      let (p, transfer) = final_suspend s.promise in
      let s' = record s { promise = p; child = done } in
      elim transfer [
        | noop ↦ some s'
        | resume c ↦ elim c [
          | none ↦ some (record s' { crashed = true })
          | some h ↦ some (go_on s')
        ]
      ]
  | _ ↦ none
]

-- The states that the two threads reach in any order of their steps.
pub data Reach (kind : Kind) (h : ℕ) : State → Type 0 where
  begin : Reach kind h (start kind)
  waiter_moves : {s t : State} → Reach kind h s → waiter_step kind h s ≡ some t → Reach kind h t
  child_moves : {s t : State} → Reach kind h s → child_step s ≡ some t → Reach kind h t
