-- ===== src/InitTask/Tests.antt =====
-- include/initTask.hpp: a task with one child that is alive when the object is destroyed, a task that returns 7 while the caller of `get` sleeps and wakes, and the order that hangs.
use rg.Prelude.{ℕ, arith, false, [], ◌∷◌, true, none, some, ◌≡◌, ◌≢◌, ◌⊎◌, refl}
use rg.InitTask.{
  State, asleep, got, done, start, get_step, wake_step, run_step, Reach, begin, get_moves, wakes,
  run_moves,
}
use rg.Life.{named}
use rg.Handle.{Memory, copy_construct, move_assign}
use rg.InitTask.Root.{
  Root, running, waiting, new_root, detach, dispatch, detaches, resumes, dispatches, is_destroyed,
  Lives, born, lives_on,
}
use rg.InitTask.Root.Ends.{AtEnd, destructor_waits}
use rg.InitTask.Get.{Answers, caller_run, Onward, get_returns, get_asleep}

abbrev answered : State ℕ
answered = record {
  promise = record { result = some 7; task_done = true };
  getter = got 7;
  runner = done;
}

answered-Reach : Reach 7 answered
unfolding start get_step wake_step run_step
answered-Reach =
    let slept : Reach 7 _ = wakes (get_moves (get_moves begin refl) refl) refl in
    let over : Reach 7 _ = run_moves (run_moves (get_moves slept refl) refl) refl in
    get_moves (get_moves (wakes over refl) refl) refl

get_returns_example :
    Answers {T = ℕ} 7 (got 7) done
    × ((answered.runner ≢ done) ⊎ ((caller_run 7 3 answered).getter ≡ got 7))
get_returns_example = get_returns 7 answered-Reach

get_asleep_example :
    (s : State ℕ) × Onward 7 start s
    × (s.getter ≡ asleep)
    × (s.promise.task_done ≡ true)
    × (get_step s ≡ none)
    × (run_step 7 s ≡ none)
    × ((caller_run 7 3 s).getter ≡ got 7)
get_asleep_example = get_asleep 7

abbrev no_memory : Memory
no_memory = record { counts = λ _. 0; destroyed = [] }

abbrev with_child : Root
with_child =
    dispatch named false (record (new_root 5 no_memory) { added = 5 ∷ []; stage = running })

abbrev in_destructor : Root
in_destructor = record with_child { main = waiting }

in_destructor-Lives : Lives 5 no_memory in_destructor
unfolding new_root detach copy_construct move_assign dispatch
in_destructor-Lives =
    lives_on
      (lives_on (lives_on (lives_on born (detaches refl)) (resumes refl))
        (dispatches named false refl (omega arith)))
      (is_destroyed refl (ground arith) (omega arith))

destructor_waits_example : AtEnd 5 no_memory (λ e. omega arith) in_destructor waiting
destructor_waits_example = destructor_waits 5 no_memory (λ e. omega arith) in_destructor-Lives
