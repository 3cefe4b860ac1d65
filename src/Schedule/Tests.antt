-- ===== src/Schedule/Tests.antt =====
-- include/dispatchTask.hpp and include/barrier.hpp: the program of the samples, where two readers
-- run, a writer waits behind them and a barrier is free.
use mathlib.Core.List.Memᴰ.{head, tail}
use rg.Prelude.{true, ◌↔◌, ◌≡◌, false, [], ◌∷◌, refl}
use rg.Access.{write, is_serial_access}
use rg.Node.{init, add_task, grant_now}
use rg.Dispatch.{Store, register, dispatch_task}
use rg.Awaiter.{await_suspend, process_all, process_container, process_resource}
use rg.Deregister.Leaves.{among}
use rg.Schedule.{Step}
use rg.Schedule.Inv.{Inv}
use rg.Schedule.Dispatched.{system}
use rg.Schedule.Kept.{reachable-Inv}
use rg.Schedule.Drain.{Drains, front_progress, drains}
use rg.Schedule.Waited.{barrier-behind}
use rg.Schedule.Compatible.{unrivalled}
use rg.Schedule.Ready.{ready_iff}
use rg.Schedule.Launch.{LaunchedOnce, reachable-LaunchedOnce}
use rg.Schedule.Samples.{
  reader, world, both, writer, store_3, tasks, three, claims, waiter, store_4, four,
}

reachable-Inv_example : Inv 4 (system store_3 tasks)
reachable-Inv_example = reachable-Inv 4 world (system store_3 tasks) three

drains_example : (s' : Store) × Drains 4 store_3 tasks s'
drains_example = drains 4 world (system store_3 tasks) three

ready_iff_example :
    (store_3.world.counters 10 ≡ 0) ↔ (unrivalled (reader ∷ both ∷ []) writer.args ≡ true)
ready_iff_example = ready_iff 4 world store_3 writer (reader ∷ both ∷ []) [] three

-- The writer waits, and its handle is not with the pool.
reachable-LaunchedOnce_example : LaunchedOnce store_3 writer
reachable-LaunchedOnce_example =
    reachable-LaunchedOnce 4 world (system store_3 tasks) writer three (tail (tail (head refl)))

front_progress_example :
    (store_3.world.counters 6 ≡ 0)
    × ((s' : Store) × Step 4 (system store_3 tasks) (system s' (both ∷ writer ∷ [])))
front_progress_example = front_progress 4 world store_3 reader [] (both ∷ writer ∷ []) three tt

waiter_zero : store_4.world.counters 12 ≡ 0
unfolding await_suspend process_all process_container process_resource dispatch_task register
    add_task grant_now init is_serial_access
waiter_zero = refl

barrier-behind_example : among 1 (3 ∷ []) ≡ false
barrier-behind_example =
    barrier-behind 4 world store_4 writer waiter claims tasks [] 1 write four refl waiter_zero
      (tail (tail (head refl))) (head refl)
