-- ===== src/Race/Tests.antt =====
-- include/ResourceNode.hpp: two readers on a node, then a task that comes and leaves.
use rg.Prelude.{ℕ, ◌+◌, ◌*◌, ◌<◌, ◌≤◌, false, ◌≡◌, ◌⊎◌, true, some, refl, arith}
use rg.Access.{read, is_serial_access}
use rg.Node.{num_tasks}
use rg.Race.{
  Mem, resting, lowering, outside, entering, heading, skipping, waking, looking, store_task,
  publish, none_waits, none_runs, runs_beside, grant, lower_own, enter, is_head, advance_head,
  head_exit, none_run, none_wait, set_at,
}
use rg.Race.System.{System, adds, removes, new_mem, Reach, start, later}
use rg.Race.Exclusion.{ready-parallel}
use rg.Race.Wakes.{owes_at, lowered-once}
use rg.Race.Alone.{Run, stays, alone-returns}
use rg.Race.Rest.{rest-none_waits}

abbrev one_mem : Mem
one_mem = record new_mem {
  handles = set_at new_mem.handles 0 7;
  modes = set_at new_mem.modes 0 read;
  removed = set_at new_mem.removed 0 false;
  last = 1;
  first_not_ready = 1;
}

-- A reader is about to start.
abbrev one_granted : System
one_granted = record { mem = one_mem; adder = lowering 0; removers = λ _. outside }

one_granted-Reach : Reach one_granted
unfolding is_serial_access
one_granted-Reach =
    later
      (later
        (later
          (later
            (later start (adds (store_task 7 read (omega arith) (λ i c b. absurd (omega arith)))))
            (adds publish))
          (adds (none_waits refl)))
        (adds (none_runs refl)))
      (adds (grant refl))

abbrev one_system : System
one_system = record one_granted {
  mem = record one_mem { lowered = set_at one_mem.lowered 0 1 };
  adder = resting;
}

one_system-Reach : Reach one_system
one_system-Reach = later one_granted-Reach (adds lower_own)

abbrev two_mem : Mem
two_mem = record one_mem {
  handles = set_at one_mem.handles 1 8;
  modes = set_at one_mem.modes 1 read;
  removed = set_at one_mem.removed 1 false;
  lowered = set_at one_mem.lowered 0 1;
  last = 2;
  first_not_ready = 2;
}

-- A second reader beside it.
abbrev two_readers : System
two_readers = record { mem = two_mem; adder = lowering 1; removers = λ _. outside }

two_readers-Reach : Reach two_readers
unfolding is_serial_access native.Mathlib.Decide.ℕ_discrete
two_readers-Reach =
    later
      (later
        (later
          (later
            (later one_system-Reach
              (adds (store_task 8 read (omega arith) (λ i c b. ground arith))))
            (adds publish))
          (adds (none_waits refl)))
        (adds (runs_beside {l = 1} (omega arith) refl)))
      (adds (grant refl))

-- One removes the first.
abbrev leaving : System
leaving = record two_readers {
  mem = record two_mem { taken = set_at two_mem.taken 0 true };
  removers = set_at (λ _. outside) 3 (entering 0);
}

leaving-Reach : Reach leaving
leaving-Reach = later two_readers-Reach (removes 3 (enter 0 (omega arith) refl))

-- The only reader has left.
abbrev rested : System
rested = record one_system {
  mem = record one_system.mem { first = 1; taken = set_at one_mem.taken 0 true };
  removers =
      set_at
        (set_at
          (set_at
            (set_at (set_at (set_at (λ _. outside) 3 (entering 0)) 3 (heading 0)) 3
              (skipping false 1))
            3 (waking 1))
          3 (looking 1))
        3 outside;
}

rested-Reach : Reach rested
unfolding native.Mathlib.Decide.ℕ_discrete
rested-Reach =
    later
      (later
        (later
          (later
            (later (later one_system-Reach (removes 3 (enter 0 (omega arith) refl)))
              (removes 3 (is_head refl)))
            (removes 3 advance_head))
          (removes 3 (head_exit refl)))
        (removes 3 (none_run refl)))
      (removes 3 (none_wait refl))

ready-parallel_example : is_serial_access (leaving.mem.modes 0) (leaving.mem.modes 1) ≡ false
ready-parallel_example = ready-parallel 0 1 leaving-Reach (omega arith) (omega arith) (omega arith)

lowered-once_example :
    ((2 ≤ 1) × (two_readers.mem.lowered 1 ≡ 0))
    ⊎ (((1 < 2) × (two_readers.mem.lowered 1 ≡ 1))
        ⊎ ((1 < 2)
            × (two_readers.mem.lowered 1 ≡ 0)
            × ((t : ℕ) × (owes_at two_readers t ≡ some 1))))
lowered-once_example = lowered-once 1 two_readers-Reach

alone-returns_example :
    (m' : Mem) × ((n' : ℕ) × (0 + n' ≤ 3 * num_tasks + 4)
      × Run leaving.mem (entering 0) n' m' outside)
unfolding native.Mathlib.Decide.ℕ_discrete
alone-returns_example = alone-returns 3 leaving-Reach stays

rest-none_waits_example : ◌≡◌ {A = ℕ} 1 1
rest-none_waits_example =
    rest-none_waits rested-Reach (λ i. ground arith) refl (λ k. ground arith) refl
