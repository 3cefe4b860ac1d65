-- ===== src/Node/Tests.antt =====
-- Runs of a resource node, and the theorems at concrete nodes.
use rg.Prelude.{
  ℕ, zero, suc, ◌≡◌, ◌<◌, ◌≤◌, refl, true, false, List, [], ◌∷◌, length-replicate, replicate, arith,
}
use rg.Prelude.Exec.{Exec, ret, ◌>>=◌}
use rg.Access.{AccessMode, read, write, is_serial_access}
use rg.Node.{
  TaskAccess, ResourceNode, World, empty_access, init, grant_now, add_task, notify, notify_parallel,
  notify_rest, skip_removed, find_and_mark, wake, remove_task,
}
use rg.Node.Queue.{enqueue, finish, started, notified_all}
use rg.Node.View.{view, IsValid}
use rg.Node.Add.{add_task_refines}
use rg.Node.Remove.{entry, remove_task_refines}
use rg.Node.Early.{marked, remove_task_early}
use rg.Node.Lost.{IsBusy, Calls, none_yet, later, adds, both_removed, lost_wakeup}
use rg.Node.Stray.{Absent, remove_task_stray}

abbrev pub task : ℕ → AccessMode → TaskAccess
task h mode = record { handle = h; wait_counter_p = h; access_mode = mode; remove_state = false }

-- Every counter waits for one resource.
abbrev pub fresh : World
fresh = record { counters = λ _. 1; added = [] }

-- Two tasks read, a third one waits to write.
abbrev pub two_readers : ResourceNode
two_readers = record {
  first = 0;
  first_not_ready = 2;
  last = 3;
  resource_uid = 7;
  tasks = task 1 read ∷ task 2 read ∷ task 3 write ∷ replicate 1021 empty_access;
}

-- One task reads, a second one waits to write.
abbrev pub one_reader : ResourceNode
one_reader = record {
  first = 0;
  first_not_ready = 1;
  last = 2;
  resource_uid = 7;
  tasks = task 1 read ∷ task 3 write ∷ replicate 1022 empty_access;
}

summary : Exec (ResourceNode × World) → Exec (List ℕ × List ℕ)
summary m = do (n, w) ← m; ret (n.first ∷ n.first_not_ready ∷ n.last ∷ [], w.added)

program : Unit {0}
unfolding summary init add_task grant_now remove_task skip_removed find_and_mark wake notify
    notify_rest notify_parallel is_serial_access
program = tt

three_tasks : Exec (ResourceNode × World)
three_tasks = do
  (n1, w1) ← add_task (init 7) fresh (task 1 read)
  (n2, w2) ← add_task n1 w1 (task 2 read)
  add_task n2 w2 (task 3 write)

-- The readers end in the order in which they came: the writer is started.
in_order :
    summary (do (n, w) ← three_tasks; (n', w') ← remove_task n w 1; remove_task n' w' 2)
    ≡ ret (2 ∷ 3 ∷ 3 ∷ [], 3 ∷ [])
unfolding program three_tasks
in_order = refl

-- They end in the other order: it is not.
out_of_order :
    summary (do (n, w) ← three_tasks; (n', w') ← remove_task n w 2; remove_task n' w' 1)
    ≡ ret (1 ∷ 2 ∷ 3 ∷ [], [])
unfolding program three_tasks
out_of_order = refl

pub two_readers-IsValid : IsValid two_readers
unfolding is_serial_access
two_readers-IsValid = record {
  sized = omega (arith, length-replicate 1021 empty_access);
  ready_in = omega arith;
  waiting_in = omega arith;
  last_in = omega arith;
  sound = record { together = (refl, (refl, tt)); blocked = refl; counted = (omega arith, tt) };
}

pub one_reader-IsValid : IsValid one_reader
unfolding is_serial_access
one_reader-IsValid = record {
  sized = omega (arith, length-replicate 1022 empty_access);
  ready_in = omega arith;
  waiting_in = omega arith;
  last_in = omega arith;
  sound = record { together = (refl, tt); blocked = refl; counted = (omega arith, tt) };
}

add_task_refines_example :
    (n' : ResourceNode) × (add_task two_readers fresh (task 4 read) ≡ ret (n', fresh))
    × (view n' ≡ enqueue (view two_readers) (task 4 read))
    × (n'.last ≡ 4)
    × IsValid n'
add_task_refines_example =
    add_task_refines fresh (task 4 read) two_readers-IsValid (omega arith) (omega arith)

remove_task_refines_example :
    (n' : ResourceNode) × (remove_task one_reader fresh 1
      ≡ ret (n', notified_all fresh (started (view one_reader))))
    × (view n' ≡ finish (view one_reader))
    × (n'.last ≡ one_reader.last)
    × IsValid n'
remove_task_refines_example =
    remove_task_refines fresh one_reader-IsValid (omega arith) (omega arith)
      (λ h. absurd (omega arith))

remove_task_early_example :
    (q : ℕ) × (0 < q)
    × (q ≤ 1)
    × ((entry two_readers q).handle ≡ 2)
    × (remove_task two_readers fresh 2 ≡ ret (marked two_readers q, fresh))
remove_task_early_example =
    remove_task_early two_readers fresh 1 (omega arith) (omega arith) (omega arith)
      two_readers-IsValid.sized (omega arith)

two_readers-IsBusy : IsBusy two_readers
two_readers-IsBusy = record {
  sized = two_readers-IsValid.sized;
  runs = omega arith;
  waits = omega arith;
  last_in = omega arith;
}

-- Both readers were removed, the younger one first, and then another reader was added.
abbrev stuck : ResourceNode
stuck = record (both_removed two_readers) {
  last = 4;
  tasks =
      task 1 read
      ∷ record (task 2 read) { remove_state = true }
      ∷ task 3 write
      ∷ task 4 read
      ∷ replicate 1020 empty_access;
}

then_one_more : Calls (both_removed two_readers) fresh stuck fresh
unfolding program
then_one_more = later none_yet (adds (task 4 read) refl)

lost_wakeup_example :
    ((remove_task two_readers fresh 2 >>= λ (n, w). remove_task n w 1)
      ≡ ret (both_removed two_readers, fresh))
    × (stuck.first_not_ready ≡ two_readers.first_not_ready)
    × (fresh ≡ fresh)
lost_wakeup_example =
    lost_wakeup {n = two_readers} fresh two_readers-IsBusy (omega arith) (omega arith) then_one_more

one_reader-Absent : Absent one_reader 9
one_reader-Absent zero lo hi = omega arith
one_reader-Absent (suc i) lo hi = absurd (omega arith)

remove_task_stray_example :
    remove_task one_reader fresh 9
    ≡ ret (record one_reader { first_not_ready = 2 }, notified_all fresh (task 3 write ∷ []))
remove_task_stray_example =
    remove_task_stray fresh 9 one_reader-IsValid (omega arith) one_reader-Absent
