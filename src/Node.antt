-- ===== src/Node.antt =====
-- include/ResourceNode.hpp: the queue of the tasks that use one resource. A call runs here without
-- steps of other threads between its own: an atomic access is a read or an update of the state.
pub mod Queue
pub mod Window
pub mod Grant
pub mod Sound
pub mod View
pub mod Add
pub mod Remove
pub mod Early
pub mod Lost
pub mod Stray
pub mod Tests
use rg.Prelude.{
  ℕ, zero, suc, ◌+◌, ◌-◌, ◌%◌, ◌^◌, ◌==◌, ltb, if◌then◌else◌, Bool, true, false, not, ◌&&◌, List,
  [], ◌∷◌, ◌++◌, none, some, length, get_elem?, set, replicate,
}
use rg.Prelude.Exec.{Exec, ret, undefined, no_fuel, ◌>>=◌}
use rg.Access.{AccessMode, read, is_serial_access}

-- `task_access`. A pointer is an address, and 0 is the null pointer.
pub record TaskAccess : Type 0 where
  pub handle : ℕ
  pub wait_counter_p : ℕ
  pub access_mode : AccessMode
  pub remove_state : Bool

-- The default constructor. It leaves `accessMode` without a value, and any would do.
abbrev pub empty_access : TaskAccess
empty_access = record { handle = 0; wait_counter_p = 0; access_mode = read; remove_state = false }

abbrev pub num_tasks : ℕ
num_tasks = 1024

-- The members of `ResourceNode`.
pub record ResourceNode : Type 0 where
  pub first : ℕ
  pub first_not_ready : ℕ
  pub last : ℕ
  pub resource_uid : ℕ
  pub tasks : List TaskAccess

-- What a node shares with others: the wait counters of the tasks by address, and the handles that
-- were passed to `ThreadPool::addTask`, oldest first.
pub record World : Type 0 where
  pub counters : ℕ → ℕ
  pub added : List ℕ

unfoldable pub init : ℕ → ResourceNode
init uid = record {
  first = 0;
  first_not_ready = 0;
  last = 0;
  resource_uid = uid;
  tasks = replicate num_tasks empty_access;
}

-- `std::array::operator[]`: an index out of range is undefined behaviour.
abbrev pub load : List TaskAccess → ℕ → Exec TaskAccess
load ts i = elim (get_elem? ts i) [ none ↦ undefined | some t ↦ ret t ]

abbrev pub store : List TaskAccess → ℕ → TaskAccess → Exec (List TaskAccess)
store ts i t = if ltb i (length ts) then ret (set ts i t) else undefined

-- `x.compare_exchange_strong(expected, desired)`: whether it succeeded, and the values of `x` and
-- of `expected` after it.
abbrev pub compare_exchange : ℕ → ℕ → ℕ → Bool × ℕ × ℕ
compare_exchange x expected desired =
    if x == expected then (true, desired, expected) else (false, x, x)

-- `p->fetch_sub(1)` on a `std::atomic<uint32_t>`: the old value, and the new memory.
abbrev pub fetch_sub_one : World → ℕ → Exec (ℕ × World)
fetch_sub_one w zero = undefined
fetch_sub_one w (suc p) =
    let old = w.counters (suc p) in
    ret (
      old,
      record w { counters = λ q. if suc p == q then (old + 2 ^ 32 - 1) % 2 ^ 32 else w.counters q },
    )

-- A task that became ready: its counter goes down, and the last one adds it to the pool.
unfoldable pub notify : World → TaskAccess → Exec World
notify w t = do
  (old, w') ← fetch_sub_one w t.wait_counter_p
  ret (if old == 1 then record w' { added = w'.added ++ (t.handle ∷ []) } else w')

-- The update in `add_task` of a task that is ready at once.
unfoldable pub grant_now : ResourceNode → World → TaskAccess → ℕ → ℕ → Exec (ResourceNode × World)
grant_now n w t old_last fnr =
    let (success, fnr', _) = compare_exchange n.first_not_ready old_last (fnr + 1) in
    let n' = record n { first_not_ready = fnr' } in
    if success then (do (_, w') ← fetch_sub_one w t.wait_counter_p; ret (n', w')) else ret (n', w)

unfoldable pub add_task : ResourceNode → World → TaskAccess → Exec (ResourceNode × World)
add_task n w t = do
  tasks' ← store n.tasks n.last t
  let n1 = record n { tasks = tasks'; last = (n.last + 1) % 2 ^ 32 }
  let fnr = n1.first_not_ready
  if fnr == n.last
      then if n1.first == n.last then grant_now n1 w t n.last fnr else (do
        prev ← load n1.tasks ((n.last + 2 ^ 32 - 1) % 2 ^ 32)
        if not (is_serial_access t.access_mode prev.access_mode)
            then grant_now n1 w t n.last fnr
            else ret (n1, w))
      else ret (n1, w)

-- How a part of `remove_task` ends: the function returns, or goes on with a value of `cur`.
pub data Flow : Type 0 where
  return : Flow
  go_on : ℕ → Flow

-- The `while` loop over tasks that are marked as removed. Both arguments of its compare-exchange
-- name `cur`, the first by reference, so the expected value is read after the increment.
unfoldable pub skip_removed : ℕ → ResourceNode → ℕ → Exec (ResourceNode × Flow × Bool)
skip_removed zero n cur = no_fuel
skip_removed (suc fuel) n cur = do
  t ← load n.tasks cur
  let found = t.remove_state
  let cur' = cur + 1
  let (success, first', cur'') = compare_exchange n.first cur' cur'
  let rest = skip_removed fuel (record n { first = first' }) cur''
  if found && not (cur == n.first_not_ready)
      then if success then rest else ret (record n { first = first' }, return, found)
      else ret (n, go_on cur, found)

-- The `while` loop that looks for the handle behind the first task.
unfoldable pub find_and_mark : ℕ → ResourceNode → ℕ → ℕ → ℕ → Exec (ResourceNode × Flow)
find_and_mark zero n handle cur fnr = no_fuel
find_and_mark (suc fuel) n handle cur fnr =
    let rest = find_and_mark fuel n handle (cur + 1) fnr in
    if cur == fnr then ret (n, go_on cur) else (do
      t ← load n.tasks cur
      if t.handle == handle
          then (do
            tasks' ← store n.tasks cur (record t { remove_state = true })
            let cur' = cur + 1
            let (success, first', cur'') = compare_exchange n.first cur' cur'
            let n' = record n { tasks = tasks'; first = first' }
            if success
                then (do
                  (n'', flow, found) ← skip_removed (num_tasks + 1) n' cur''
                  ret (n'', if found then flow else return))
                else ret (n', return))
          else rest)

-- The inner `while` of the last loop: every parallel task behind the first new ready one.
unfoldable pub notify_parallel :
    ℕ → ResourceNode → World → AccessMode → ℕ → ℕ → Bool → Exec (ResourceNode × World × ℕ × Bool)
notify_parallel zero n w mode fnr temp_last parallel_exit = no_fuel
notify_parallel (suc fuel) n w mode fnr temp_last parallel_exit =
    if fnr == temp_last then ret (n, w, fnr, parallel_exit) else (do
      t ← load n.tasks fnr
      if is_serial_access mode t.access_mode then ret (n, w, fnr, false) else (do
        let (success, fnr', _) = compare_exchange n.first_not_ready fnr (fnr + 1)
        let n' = record n { first_not_ready = fnr' }
        if success
            then (do w' ← notify w t; notify_parallel fuel n' w' mode (fnr + 1) temp_last true)
            else ret (n', w, fnr', false)))

-- The `do ... while`: another round if `last` moved during the inner loop. A lost compare-exchange
-- returns, and so does an inner loop that met a serial task or had nothing to look at.
unfoldable pub notify_rest : ℕ → ResourceNode → World → AccessMode → ℕ → Exec (ResourceNode × World)
notify_rest zero n w mode fnr = no_fuel
notify_rest (suc fuel) n w mode fnr = do
  let temp_last = n.last
  (n', w', fnr', parallel_exit) ← notify_parallel (num_tasks + 1) n w mode fnr temp_last false
  let rest = notify_rest fuel n' w' mode fnr'
  if parallel_exit && not (temp_last == n'.last) then rest else ret (n', w')

-- The second half of `remove_task`: if no running task is left at `cur`, the next ones become ready.
unfoldable pub wake : ResourceNode → World → ℕ → Exec (ResourceNode × World)
wake n w cur =
    let fnr = n.first_not_ready in
    if fnr == cur && not (n.last == cur)
    then (do
      let (success, fnr', _) = compare_exchange n.first_not_ready fnr (fnr + 1)
      let n' = record n { first_not_ready = fnr' }
      if success
          then (do
            t ← load n'.tasks fnr
            w' ← notify w t
            notify_rest (num_tasks + 1) n' w' t.access_mode (fnr + 1))
          else ret (n', w))
    else ret (n, w)

abbrev pub continue_at : World → ResourceNode → Flow → Exec (ResourceNode × World)
continue_at w n return = ret (n, w)
continue_at w n (go_on cur) = wake n w cur

unfoldable pub remove_task : ResourceNode → World → ℕ → Exec (ResourceNode × World)
remove_task n w handle = do
  let cur = n.first
  t ← load n.tasks cur
  if t.handle == handle
      then (do
        (n', flow, _) ← skip_removed (num_tasks + 1) (record n { first = cur + 1 }) (cur + 1)
        continue_at w n' flow)
      else (do
        (n', flow) ← find_and_mark (num_tasks + 1) n handle (cur + 1) n.first_not_ready
        continue_at w n' flow)
