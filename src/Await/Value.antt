-- ===== src/Await/Value.antt =====
-- include/Task.hpp and include/dispatchTask.hpp: the result of a task, from `return_value` to the
-- `await_resume` of the awaiter.
use rg.Prelude.{ℕ, Bool, true, false, Option, none, some, ◌≡◌}
use rg.Await.{Kind, State, start, working, went_on, waiter_step, child_step}

-- The states of the two threads, `result` of the promise, whether `return_value` has run, and what
-- `await_resume` gave the waiter.
pub record Valued {ℓ} (T : Type ℓ) : Type ℓ where
  pub state : State
  pub result : T
  pub returned : Bool
  pub received : Option T

module _ {ℓ} {T : Type ℓ} where
  -- `result` is default constructed.
  unfoldable pub new_valued : Kind → T → Valued T
  new_valued kind default = record {
    state = start kind;
    result = default;
    returned = false;
    received = none;
  }

  unfoldable pub return_value : T → Valued T → Valued T
  return_value value s = record s { result = value; returned = true }

  unfoldable pub await_resume : Valued T → Valued T
  await_resume s = record s { received = some s.result }

  -- A step of the waiter or of the task, which returns `v` before its `final_suspend`.
  pub data Step (kind : Kind) (h : ℕ) (v : T) (s : Valued T) : Valued T → Type ℓ where
    returns : s.state.child ≡ working → s.returned ≡ false → Step kind h v s (return_value v s)
    ends :
        {t : State}
        → s.returned ≡ true
        → child_step s.state ≡ some t
        → Step kind h v s (record s { state = t })
    waits :
        {t : State} → waiter_step kind h s.state ≡ some t → Step kind h v s (record s { state = t })
    resumes : s.state.waiter ≡ went_on → s.received ≡ none → Step kind h v s (await_resume s)

  pub data Runs (kind : Kind) (h : ℕ) (default v : T) : Valued T → Type ℓ where
    begins : Runs kind h default v (new_valued kind default)
    goes_on :
        {s t : Valued T} → Runs kind h default v s → Step kind h v s t → Runs kind h default v t
