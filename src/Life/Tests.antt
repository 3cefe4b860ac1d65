-- ===== src/Life/Tests.antt =====
-- include/Task.hpp: a task that dispatches one child, whose object is destroyed, and a check at a barrier.
use rg.Prelude.{◌≡◌, true, false, refl, [], length}
use rg.Life.Owners.{own}
use rg.Handle.{null_handle, Memory, copy_construct, copy_assign, increment_ref, decrement_ref}
use rg.Barrier.{is_ready}
use rg.Life.{
  Life, released, new_life, named, returns_value, object_destroyed, handle_destroyed, life_step,
  clear_outside, await_transform, keeps_parent, cleared, Onward, here, goes_on, seen_at, entry_of,
}

abbrev no_memory : Memory
no_memory = record { counts = λ _. 0; destroyed = [] }

abbrev parent_of_one : Life
parent_of_one = await_transform named returns_value false false (new_life 5 no_memory)

abbrev object_gone : Life
object_gone = record parent_of_one { outside = false; holder = cleared }

to_object_gone : Onward parent_of_one object_gone
unfolding life_step new_life copy_construct await_transform keeps_parent clear_outside
to_object_gone = goes_on object_destroyed here refl

-- The flag loaded first, then the object destroyed, and the counter loaded last: the check finds the task
-- ready although its child is alive.
abbrev handle_gone : Life
handle_gone = record object_gone {
  memory = (decrement_ref null_handle (decrement_ref (own 5) object_gone.memory).1).1;
  object = record object_gone.object { coro = null_handle };
  holder = released;
}

to_handle_gone : Onward parent_of_one handle_gone
unfolding life_step new_life copy_construct await_transform keeps_parent clear_outside
to_handle_gone = goes_on handle_destroyed to_object_gone refl

outside_first :
    (length handle_gone.parents ≡ 1)
    × (is_ready (seen_at handle_gone parent_of_one) (entry_of 5) ≡ true)
unfolding await_transform keeps_parent new_life copy_construct copy_assign increment_ref
    decrement_ref is_ready
outside_first = (refl, refl)
