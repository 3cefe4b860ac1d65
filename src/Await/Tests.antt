-- ===== src/Await/Tests.antt =====
-- A waiter that is suspended before the task ends, and what the theorems say of it.
use rg.Prelude.{ℕ, Option, none, true, ◌≡◌, ◌≢◌, ◌≤◌, ◌⊎◌, refl, false, some}
use rg.Await.{
  by_get, State, went_on, suspended, Child, done, waiter_step, child_step, Reach, begin,
  waiter_moves, child_moves,
}
use rg.Await.Value.{
  Valued, new_valued, return_value, await_resume, returns, ends, waits, resumes, Runs, begins,
  goes_on,
}
use rg.Await.Received.{Goes, received_lem}
use rg.Await.Resume.{resumed_once, Fewer, steps_left, waiter_progress}

abbrev waiting : State
waiting = record {
  promise = record { working_state = 2; continuation_handle = some 9 };
  waiter = suspended;
  child = Child.working;
  wakings = 0;
  crashed = false;
}

waiting-Reach : Reach by_get 9 waiting
unfolding waiter_step
waiting-Reach = waiter_moves (waiter_moves (waiter_moves begin refl) refl) refl

abbrev resumed : State
resumed = record waiting { waiter = went_on; child = done; wakings = 1 }

resumed-Reach : Reach by_get 9 resumed
unfolding child_step
resumed-Reach = child_moves waiting-Reach refl

resumed_once_example :
    (1 ≤ 1) × (false ≡ false) × ((went_on ≢ went_on) ⊎ ((done ≡ done) × (resumed.wakings ≡ 1)))
resumed_once_example = resumed_once resumed-Reach

waiter_progress_example :
    ((t : State) × ((waiter_step by_get 9 waiting ≡ some t) ⊎ (child_step waiting ≡ some t)))
    × (steps_left waiting ≤ 4)
    × Fewer (steps_left waiting) (waiter_step by_get 9 waiting)
    × Fewer (steps_left waiting) (child_step waiting)
waiter_progress_example = waiter_progress waiting-Reach (λ e. cc)

-- The task returns 7, and the waiter takes it.
abbrev taken : Valued ℕ
taken = record { state = resumed; result = 7; returned = true; received = some 7 }

taken-Runs : Runs by_get 9 0 7 taken
unfolding new_valued return_value await_resume waiter_step child_step
taken-Runs =
    goes_on
      (goes_on
        (goes_on (goes_on (goes_on (goes_on begins (waits refl)) (waits refl)) (waits refl))
          (returns refl refl))
        (ends refl refl))
      (resumes refl refl)

received_lem_example :
    (◌≡◌ {A = Option ℕ} (some 7) (some 7))
    ⊎ ((◌≡◌ {A = Option ℕ} (some 7) none) × Goes by_get 9 7 taken)
received_lem_example = received_lem taken-Runs
