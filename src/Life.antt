-- ===== src/Life.antt =====
-- include/Task.hpp: the life of one task. Its promise holds itself, a `Task` object or the awaiter
-- of `get` holds it until the caller lets go, and the promises of the tasks that it dispatches hold
-- it as their `parent`.
pub mod Owners
pub mod Steps
pub mod Children
mod Tests
use rg.Prelude.{
  ℕ, ◌+◌, ◌<◌, ◌==◌, ltb, ◌^◌, if◌then◌else◌, Bool, true, false, not, ◌&&◌, List, [], ◌∷◌, length,
  Option, none, some, ◌≡◌,
}
use rg.Handle.{
  Handle, null_handle, Memory, set_count, copy_construct, move_construct, copy_assign,
  decrement_ref, reset,
}
use rg.Barrier.{Entry, Seen}

-- A `Task` object.
pub record TaskObject : Type 0 where
  pub coro : Handle
  pub is_moved : Bool

-- Who holds the handle that the caller got, as the program runs through these in order.
pub data Holder : Type 0 where
  in_object : Holder  -- the `Task` object
  in_awaiter : Holder  -- the `GetAwaiter`
  cleared : Holder  -- either, after `coroOutsideTask` was set to false
  released : Holder  -- nobody

-- The task: what `sharedOwnerCounter` and other counters are, `coroOutsideTask`, `self`, the handle
-- of the caller, and the `parent` members of the promises of its children.
pub record Life : Type 0 where
  pub memory : Memory
  pub outside : Bool
  pub self : Handle
  pub object : TaskObject
  pub awaiter : Handle
  pub parents : List Handle
  pub holder : Holder

-- The constructor of `promise_type`, and `get_return_object`.
unfoldable pub new_life : ℕ → Memory → Life
new_life a m =
    let self : Handle = record { address = a; ref_count = a } in
    let (coro, m') = copy_construct self (set_count m a 1) in
    record {
      memory = m';
      outside = true;
      self = self;
      object = record { coro = coro; is_moved = false };
      awaiter = null_handle;
      parents = [];
      holder = in_object;
    }

-- The move constructor of `Task`: the new object and the old one.
unfoldable pub move_task : TaskObject → TaskObject × TaskObject
move_task x =
    let (coro, left) = move_construct x.coro in
    (record { coro = coro; is_moved = false }, record { coro = left; is_moved = true })

-- The body of `~Task`, on `coroOutsideTask` of the promise that `coro` leads to.
unfoldable pub clear_outside : TaskObject → Bool → Bool
clear_outside x outside = if not x.is_moved && not (x.coro.address == 0) then false else outside

-- `await_transform` of a dispatch: whether the child gets this task as its `parent`. A `Task<T>`
-- looks at `finishedOnReturn`. The one of `Task<void>` calls the second argument of
-- `DispatchAwaiter`, which is `Synchronous`, by that name.
pub data Returns : Type 0 where
  returns_value returns_void : Returns

unfoldable pub keeps_parent : Returns → Bool → Bool → Bool
keeps_parent returns_value synchronous finished_on_return = not finished_on_return
keeps_parent returns_void synchronous finished_on_return = not synchronous

-- What `co_await` is applied to: a variable, or a temporary as in `co_await dispatch_task(...)`. The
-- overload for a `DispatchAwaiter` takes an lvalue, so that a temporary goes through the generic one,
-- which only forwards it.
pub data Operand : Type 0 where
  named temporary : Operand

unfoldable pub await_transform : Operand → Returns → Bool → Bool → Life → Life
await_transform temporary kind synchronous finished_on_return life = life
await_transform named kind synchronous finished_on_return life =
    let (parent, m) = copy_assign null_handle life.self life.memory in
    if keeps_parent kind synchronous finished_on_return
    then record life { memory = m; parents = parent ∷ life.parents }
    else life

-- What can happen to a task, in any order that the holder allows.
pub data Step : Type 0 where
  moved : Step  -- the object is moved, and the old one is destroyed
  dispatched : Operand → Returns → Bool → Bool → Step  -- the task dispatches a child
  child_destroyed : Step  -- the promise of a child is destroyed, and its `parent` with it
  get_called : Step  -- `get` moves the handle into its awaiter
  get_resumed : Step  -- `GetAwaiter::await_resume`
  object_destroyed : Step  -- the body of `~Task`
  handle_destroyed : Step  -- the destruction of the `coro` of the object or the awaiter
  finished : Step  -- `final_suspend`, and the reset of `self`

-- A step; `none` where the program cannot take it. At most 2^32 - 3 children are alive.
unfoldable pub life_step : Step → Life → Option Life
life_step moved life =
    let (new, old) = move_task life.object in
    let outside = clear_outside old life.outside in
    elim life.holder [
      | in_object ↦ some (record life { object = new; outside = outside })
      | _ ↦ none
    ]
life_step (dispatched operand kind synchronous finished_on_return) life =
    if not (life.self.ref_count == 0) && ltb (length life.parents + 3) (2 ^ 32)
    then some (await_transform operand kind synchronous finished_on_return life)
    else none
life_step child_destroyed life = elim life.parents [
  | [] ↦ none
  | parent ∷ rest ↦
      let (_, m) = decrement_ref parent life.memory in
      some (record life { memory = m; parents = rest })
]
life_step get_called life =
    let (awaiter, left) = move_construct life.object.coro in
    elim life.holder [
      | in_object ↦ some (record life {
        object = record life.object { coro = left };
        awaiter = awaiter;
        holder = in_awaiter;
      })
      | _ ↦ none
    ]
life_step get_resumed life = elim life.holder [
  | in_awaiter ↦ some (record life { outside = false; holder = cleared })
  | _ ↦ none
]
life_step object_destroyed life = elim life.holder [
  | in_object ↦
      some (record life { outside = clear_outside life.object life.outside; holder = cleared })
  | _ ↦ none
]
life_step handle_destroyed life =
    let (_, m) = decrement_ref life.object.coro life.memory in
    let (_, m') = decrement_ref life.awaiter m in
    elim life.holder [
      | cleared ↦ some (record life {
        memory = m';
        object = record life.object { coro = null_handle };
        awaiter = null_handle;
        holder = released;
      })
      | _ ↦ none
    ]
life_step finished life =
    let (self, m) = reset life.self life.memory in
    if life.self.ref_count == 0 then none else some (record life { self = self; memory = m })

-- The lives of a task at an address, up to its last step.
pub data Lives (a : ℕ) : Life → Type 0 where
  born : (m : Memory) → Lives a (new_life a m)
  lives_on : (s : Step) {x y : Life} → Lives a x → life_step s x ≡ some y → Lives a y

-- The later states of a task.
pub data Onward (x : Life) : Life → Type 0 where
  here : Onward x x
  goes_on : (s : Step) {y z : Life} → Onward x y → life_step s y ≡ some z → Onward x z

-- What a check of the barrier queue sees of the task, by the state in which it loads the counter and
-- the state in which it loads `coroOutsideTask`; and the entry of the task there.
abbrev pub seen_at : Life → Life → Seen
seen_at x y = record { counts = x.memory.counts; outside = λ _. y.outside }

abbrev pub entry_of : ℕ → Entry
entry_of a = record { handle = a; use_count_p = a; outside_p = a }
