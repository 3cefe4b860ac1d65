-- ===== src/Handle.antt =====
-- include/SharedCoroutineHandle.hpp and include/FinalDelete.hpp: counted references to coroutines.
pub mod Counted
mod Tests
use rg.Prelude.{
  ℕ, ◌+◌, ◌-◌, ◌%◌, ◌^◌, ◌==◌, ◌<◌, ◌≡◌, ◌≢◌, if◌then◌else◌, not, ◌&&◌, Bool, true, false, List, [],
  ◌∷◌, ◌++◌, length, get_or, set,
}
use rg.WaitCounter.{add32, sub32}

-- `SharedCoroutineHandle`: `address_`, and the coroutine whose counter `ref_count_` points to. 0 is
-- the null pointer in both.
pub record Handle : Type 0 where
  pub address : ℕ
  pub ref_count : ℕ

-- The default constructor.
abbrev pub null_handle : Handle
null_handle = record { address = 0; ref_count = 0 }

-- The counters `sharedOwnerCounter` by coroutine, and the calls of `destroy()`, oldest first.
pub record Memory : Type 0 where
  pub counts : ℕ → ℕ
  pub destroyed : List ℕ

abbrev pub set_count : Memory → ℕ → ℕ → Memory
set_count m a c = record m { counts = λ q. if a == q then c else m.counts q }

unfoldable pub increment_ref : Handle → Memory → Memory
increment_ref h m =
    if h.ref_count == 0 then m else set_count m h.ref_count (add32 (m.counts h.ref_count) 1)

unfoldable pub decrement_ref : Handle → Memory → Handle × Memory
decrement_ref h m =
    let old = m.counts h.ref_count in
    let m' = set_count m h.ref_count (sub32 old 1) in
    if h.ref_count == 0
    then (h, m)
    else if old == 1
    then (record h { ref_count = 0 }, record m' { destroyed = m.destroyed ++ (h.address ∷ []) })
    else (h, m')

-- The copy constructor.
unfoldable pub copy_construct : Handle → Memory → Handle × Memory
unfolding increment_ref
copy_construct other m = let h = other in (h, increment_ref h m)

-- The move constructor: the new handle, and what is left of the old one.
unfoldable pub move_construct : Handle → Handle × Handle
move_construct other = (other, null_handle)

-- The two assignments, for `this != &other`.
unfoldable pub copy_assign : Handle → Handle → Memory → Handle × Memory
unfolding increment_ref decrement_ref
copy_assign this other m =
    let (_, m') = decrement_ref this m in let h = other in (h, increment_ref h m')

unfoldable pub move_assign : Handle → Handle → Memory → Handle × Handle × Memory
unfolding decrement_ref
move_assign this other m = let (_, m') = decrement_ref this m in (other, null_handle, m')

unfoldable pub reset : Handle → Memory → Handle × Memory
reset h m =
    let old = m.counts h.ref_count in
    let m' = set_count m h.ref_count (sub32 old 1) in
    if h.ref_count == 0
    then (null_handle, m)
    else if old == 1
    then (null_handle, record m' { destroyed = m.destroyed ++ (h.address ∷ []) })
    else (null_handle, m')

-- The variables that hold handles, in promises, awaiters and task objects. A variable whose object
-- does not exist is null.
pub record Program : Type 0 where
  pub slots : List Handle
  pub memory : Memory

abbrev pub slot : Program → ℕ → Handle
slot p i = get_or p.slots i null_handle

-- What can be done to the variables. `adopt` is the construction of the first handle of a new
-- coroutine from its raw handle, whose promise starts its counter at 1.
pub data Op : Type 0 where
  adopt : (i a : ℕ) → Op
  copy_new : (i j : ℕ) → Op
  move_new : (i j : ℕ) → Op
  assign : (i j : ℕ) → Op
  move_in : (i j : ℕ) → Op
  reset_slot : (i : ℕ) → Op
  destruct : (i : ℕ) → Op

unfoldable pub run_op : Op → Program → Program
unfolding copy_construct move_construct copy_assign move_assign reset decrement_ref
run_op (adopt i a) p = record {
  slots = set p.slots i (record { address = a; ref_count = a });
  memory = set_count p.memory a 1;
}
run_op (copy_new i j) p =
    let (h, m) = copy_construct (slot p j) p.memory in
    record { slots = set p.slots i h; memory = m }
run_op (move_new i j) p =
    let (h, other) = move_construct (slot p j) in record p { slots = set (set p.slots j other) i h }
run_op (assign i j) p =
    let (h, m) = copy_assign (slot p i) (slot p j) p.memory in
    if i == j then p else record { slots = set p.slots i h; memory = m }
run_op (move_in i j) p =
    let (h, other, m) = move_assign (slot p i) (slot p j) p.memory in
    if i == j then p else record { slots = set (set p.slots j other) i h; memory = m }
run_op (reset_slot i) p =
    let (h, m) = reset (slot p i) p.memory in record { slots = set p.slots i h; memory = m }
run_op (destruct i) p =
    let (_, m) = decrement_ref (slot p i) p.memory in
    record { slots = set p.slots i null_handle; memory = m }

-- `FinalDelete::await_suspend`: the continuation is copied before the handle is reset, since the
-- reset may destroy the coroutine that holds both.
unfoldable pub final_delete : Handle → ℕ → Memory → ℕ × Handle × Memory
unfolding reset
final_delete self handle m =
    let local_handle_copy = handle in
    let (self', m') = reset self m in (local_handle_copy, self', m')
