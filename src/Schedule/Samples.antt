-- ===== src/Schedule/Samples.antt =====
-- include/dispatchTask.hpp and include/barrier.hpp: a task reads a resource, a second one reads
-- it too and writes another one, a third one waits to write the first one, and a barrier waits
-- for a third resource.
use rg.Prelude.{
  Option, some, ℕ, ◌+◌, ◌≤◌, ◌==◌, ◌≡◌, Bool, Bool-cases, inl, inr, true, false, List, [], ◌∷◌,
  refl, arith,
}
use rg.Prelude.Exec.{Exec, ret, undefined, no_fuel}
use rg.Access.{read, write, is_serial_access}
use rg.Node.{World, num_tasks, init, add_task, grant_now}
use rg.Dispatch.{Store, plain, access, resource_counter, register, dispatch_task}
use rg.Awaiter.{
  Resources, container, await_suspend, process_all, process_container, process_resource,
}
use rg.Schedule.{barriers, Live, IsCall, dispatches, Steps, no_step, one_step, start}
use rg.Schedule.Dispatched.{system}
use rg.Schedule.Kept.{Steps-append}

abbrev pub reader : Live
reader = record {
  co = record { handle = 5; wait_counter_p = 6 };
  args = access 1 read ∷ [];
  listed = 1 ∷ [];
  ready = true;
  before = 0;
}

abbrev pub world : World
world = record { counters = λ _. 0; added = [] }

abbrev pub store_of : Exec (Store × List ℕ × Bool) → Store
store_of (ret x) = x.0
store_of undefined = record { nodes = init; world = world }
store_of no_fuel = record { nodes = init; world = world }

abbrev pub store_0 : Store
store_0 = record { nodes = init; world = world }

abbrev pub store_1 : Store
store_1 = store_of (dispatch_task reader.co reader.args store_0)

pub run_1 : dispatch_task reader.co reader.args store_0 ≡ ret (store_1, 1 ∷ [], true)
unfolding dispatch_task register resource_counter add_task grant_now init is_serial_access
run_1 = refl

abbrev pub both : Live
both = record {
  co = record { handle = 7; wait_counter_p = 8 };
  args = access 2 write ∷ plain ∷ access 1 read ∷ [];
  listed = 2 ∷ 1 ∷ [];
  ready = true;
  before = 0;
}

abbrev pub writer : Live
writer = record {
  co = record { handle = 9; wait_counter_p = 10 };
  args = access 1 write ∷ [];
  listed = 1 ∷ [];
  ready = false;
  before = 0;
}

abbrev pub store_2 : Store
store_2 = store_of (dispatch_task both.co both.args store_1)

abbrev pub store_3 : Store
store_3 = store_of (dispatch_task writer.co writer.args store_2)

pub run_2 : dispatch_task both.co both.args store_1 ≡ ret (store_2, 2 ∷ 1 ∷ [], true)
unfolding dispatch_task register resource_counter add_task grant_now init is_serial_access
run_2 = refl

pub run_3 : dispatch_task writer.co writer.args store_2 ≡ ret (store_3, 1 ∷ [], false)
unfolding dispatch_task register resource_counter add_task grant_now init is_serial_access
run_3 = refl

abbrev pub tasks : List Live
tasks = reader ∷ both ∷ writer ∷ []

pub reader-IsCall : IsCall 4 reader []
reader-IsCall = record {
  counter = omega arith;
  fresh = tt;
  fresh_handle = tt;
  few = omega arith;
  distinct = (tt, tt);
  below = (omega arith, tt);
}

pub both-IsCall : IsCall 4 both (reader ∷ [])
both-IsCall = record {
  counter = omega arith;
  fresh = (omega arith, tt);
  fresh_handle = (omega arith, tt);
  few = omega arith;
  distinct = (((λ e. omega arith), tt), (tt, tt));
  below = (omega arith, (omega arith, tt));
}

pub writer-IsCall : IsCall 4 writer (reader ∷ both ∷ [])
writer-IsCall = record {
  counter = omega arith;
  fresh = (omega arith, (omega arith, tt));
  fresh_handle = (omega arith, (omega arith, tt));
  few = omega arith;
  distinct = (tt, tt);
  below = (omega arith, tt);
}

pub space_0 : (i : ℕ) → (store_0.nodes i).last + 2 ≤ num_tasks
unfolding init
space_0 i = omega arith

pub space_1 : (i : ℕ) → (store_1.nodes i).last + 3 ≤ num_tasks
unfolding dispatch_task register resource_counter add_task grant_now init is_serial_access
space_1 i = elim (Bool-cases (1 == i)) [ inl e ↦ rw e (omega arith) | inr e ↦ rw e (omega arith) ]

pub space_2 : (i : ℕ) → (store_2.nodes i).last + 2 ≤ num_tasks
unfolding dispatch_task register resource_counter add_task grant_now init is_serial_access
space_2 i = elim (Bool-cases (1 == i)) [
  | inl e ↦ rw e (omega arith)
  | inr e ↦ elim (Bool-cases (2 == i)) [
    | inl f ↦ rw (e, f) (omega arith)
    | inr f ↦ rw (e, f) (omega arith)
  ]
]

pub three : Steps 4 (start world) (system store_3 tasks)
unfolding dispatch_task register add_task init grant_now is_serial_access
three =
    one_step (start world) (system store_1 (reader ∷ [])) (system store_3 tasks)
      (dispatches reader store_0 store_1 [] reader-IsCall space_0 run_1 refl)
      (one_step (system store_1 (reader ∷ [])) (system store_2 (reader ∷ both ∷ []))
        (system store_3 tasks)
        (dispatches both store_1 store_2 (reader ∷ []) both-IsCall space_1 run_2 refl)
        (one_step (system store_2 (reader ∷ both ∷ [])) (system store_3 tasks)
          (system store_3 tasks)
          (dispatches writer store_2 store_3 (reader ∷ both ∷ []) writer-IsCall space_2 run_3 refl)
          (no_step (system store_3 tasks))))

-- After these, a barrier waits for a third resource, which is free.
abbrev pub claims : List Resources
claims = container (3 ∷ []) ∷ []

abbrev pub waiter : Live
waiter = record {
  co = record { handle = 11; wait_counter_p = 12 };
  args = access 3 write ∷ [];
  listed = 3 ∷ [];
  ready = true;
  before = 0;
}

abbrev pub store_of_await : Exec (Store × List ℕ × Option ℕ) → Store
store_of_await (ret x) = x.0
store_of_await undefined = store_0
store_of_await no_fuel = store_0

abbrev pub store_4 : Store
store_4 = store_of_await (await_suspend waiter.co claims store_3)

pub run_4 : await_suspend waiter.co claims store_3 ≡ ret (store_4, 3 ∷ [], some 11)
unfolding await_suspend process_all process_container process_resource dispatch_task register
    add_task grant_now init is_serial_access
run_4 = refl

pub waiter-IsCall : IsCall 4 waiter tasks
waiter-IsCall = record {
  counter = omega arith;
  fresh = (omega arith, (omega arith, (omega arith, tt)));
  fresh_handle = (omega arith, (omega arith, (omega arith, tt)));
  few = omega arith;
  distinct = (tt, tt);
  below = (omega arith, tt);
}

pub space_3 : (i : ℕ) → (store_3.nodes i).last + 2 ≤ num_tasks
unfolding dispatch_task register resource_counter add_task grant_now init is_serial_access
space_3 i = elim (Bool-cases (1 == i)) [
  | inl e ↦ rw e (omega arith)
  | inr e ↦ elim (Bool-cases (2 == i)) [
    | inl f ↦ rw (e, f) (omega arith)
    | inr f ↦ rw (e, f) (omega arith)
  ]
]

pub four : Steps 4 (start world) (system store_4 (reader ∷ both ∷ writer ∷ waiter ∷ []))
unfolding dispatch_task register add_task init grant_now is_serial_access
four =
    let last = system store_4 (reader ∷ both ∷ writer ∷ waiter ∷ []) in
    Steps-append three (
      one_step (system store_3 tasks) last last
        (barriers waiter claims (some 11) store_3 store_4 tasks waiter-IsCall refl space_3 run_4
          refl refl)
        (no_step last))
