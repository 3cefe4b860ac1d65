-- ===== src/Node/Lost.antt =====
-- Two tasks that run together end, the younger one first: the waiting tasks are never started.
use rg.Prelude.{
  ℕ, suc, ◌+◌, ◌<◌, ◌≤◌, ◌≡◌, ◌≢◌, refl, ap, sym, ◌∙◌, true, length, length-set, get_or-set_self,
  get_or-set_ne, arith,
}
use rg.Prelude.Exec.{ret, ◌>>=◌}
use rg.Node.{
  TaskAccess, ResourceNode, World, empty_access, num_tasks, return, skip_removed, add_task,
  remove_task,
}
use rg.Node.Window.{load_in}
use rg.Node.Remove.{entry}
use rg.Node.Early.{marked, remove_task_early}

-- At a removed task that still counts as running the loop returns from `remove_task`.
skip_removed_lost :
    (fuel : ℕ) (n : ResourceNode)
    → n.first < length n.tasks
    → (entry n n.first).remove_state ≡ true
    → n.first ≢ n.first_not_ready
    → skip_removed (suc fuel) n n.first ≡ ret (n, return, true)
unfolding skip_removed
skip_removed_lost fuel n b r h = ground (arith, load_in n.tasks n.first b)

remove_task_stalls :
    (n : ResourceNode) (w : World)
    → n.first + 1 < n.first_not_ready
    → n.first_not_ready ≤ num_tasks
    → length n.tasks ≡ num_tasks
    → (entry n (n.first + 1)).remove_state ≡ true
    → remove_task n w (entry n n.first).handle ≡ ret (record n { first = n.first + 1 }, w)
unfolding remove_task
remove_task_stalls n w b c s r = ground (
  arith,
  load_in n.tasks n.first (omega arith),
  skip_removed_lost num_tasks (record n { first = n.first + 1 }),
)

-- A task runs, others wait, and the array is in order.
pub record IsBusy (n : ResourceNode) : Type 0 where
  pub sized : length n.tasks ≡ num_tasks
  pub runs : n.first < n.first_not_ready
  pub waits : n.first_not_ready < n.last
  pub last_in : n.last ≤ num_tasks

-- A later call on the node: a new task, or the end of one that counts as running and does not have
-- the handle of the oldest one.
pub data Call (n : ResourceNode) (w : World) (n' : ResourceNode) (w' : World) : Type 0 where
  adds : (t : TaskAccess) → add_task n w t ≡ ret (n', w') → Call n w n' w'
  ends :
      (p : ℕ)
      → n.first < p
      → p < n.first_not_ready
      → (entry n n.first).handle ≢ (entry n p).handle
      → remove_task n w (entry n p).handle ≡ ret (n', w')
      → Call n w n' w'

pub data Calls (n : ResourceNode) (w : World) : ResourceNode → World → Type 0 where
  none_yet : Calls n w n w
  later : {m n' : ResourceNode} {v w' : World} → Calls n w m v → Call m v n' w' → Calls n w n' w'

-- What stays as it is.
pub record Stuck (n : ResourceNode) (w : World) (n' : ResourceNode) (w' : World) : Type 0 where
  pub busy : IsBusy n'
  pub same_first : n'.first ≡ n.first
  pub same_ready : n'.first_not_ready ≡ n.first_not_ready
  pub same_world : w' ≡ w

add_task-Stuck :
    (n : ResourceNode) (w : World) (t : TaskAccess) {n' : ResourceNode} {w' : World}
    → IsBusy n
    → add_task n w t ≡ ret (n', w')
    → Stuck n w n' w'
unfolding add_task
add_task-Stuck n w t b e = ground (arith, length-set n.tasks n.last t)

remove_task-Stuck :
    (n : ResourceNode) (w : World) (p : ℕ) {n' : ResourceNode} {w' : World}
    → IsBusy n
    → n.first < p
    → p < n.first_not_ready
    → (entry n n.first).handle ≢ (entry n p).handle
    → remove_task n w (entry n p).handle ≡ ret (n', w')
    → Stuck n w n' w'
remove_task-Stuck n w p b h k ne e =
    let (q, _, _, _, run) = remove_task_early n w p h k (omega arith) b.sized ne in
    ground (arith, run, e, length-set n.tasks q (record (entry n q) { remove_state = true }))

Stuck-trans :
    {n m n' : ResourceNode} {w v w' : World} → Stuck n w m v → Stuck m v n' w' → Stuck n w n' w'
Stuck-trans s t = record {
  busy = t.busy;
  same_first = t.same_first ∙ s.same_first;
  same_ready = t.same_ready ∙ s.same_ready;
  same_world = t.same_world ∙ s.same_world;
}

Call-Stuck :
    {n : ResourceNode} {w : World} {n' : ResourceNode} {w' : World}
    → IsBusy n
    → Call n w n' w'
    → Stuck n w n' w'
Call-Stuck {n} {w} b (adds t e) = add_task-Stuck n w t b e
Call-Stuck {n} {w} b (ends p h k ne e) = remove_task-Stuck n w p b h k ne e

-- While the oldest task that counts as running is not removed, no call lets a task start.
Calls-Stuck :
    {n : ResourceNode} {w : World} {n' : ResourceNode} {w' : World}
    → IsBusy n
    → Calls n w n' w'
    → Stuck n w n' w'
Calls-Stuck b none_yet = record {
  busy = b;
  same_first = refl;
  same_ready = refl;
  same_world = refl;
}
Calls-Stuck b (later cs c) = let s = Calls-Stuck b cs in Stuck-trans s (Call-Stuck s.busy c)

-- The node after its second task and then its first one were removed.
abbrev pub both_removed : ResourceNode → ResourceNode
both_removed n = record (marked n (n.first + 1)) { first = n.first + 1 }

both_removed-IsBusy :
    (n : ResourceNode) → IsBusy n → n.first + 1 < n.first_not_ready → IsBusy (both_removed n)
both_removed-IsBusy n b h = record {
  sized =
      length-set n.tasks (n.first + 1) (record (entry n (n.first + 1)) { remove_state = true })
      ∙ b.sized;
  runs = h;
  waits = b.waits;
  last_in = b.last_in;
}

removals :
    (n : ResourceNode) (w : World)
    → IsBusy n
    → n.first + 1 < n.first_not_ready
    → (entry n n.first).handle ≢ (entry n (n.first + 1)).handle
    → (remove_task n w (entry n (n.first + 1)).handle >>= λ (m, v).
        remove_task m v (entry n n.first).handle)
      ≡ ret (both_removed n, w)
removals n w b h ne =
    let (q, lo, hi, _, run) =
      remove_task_early n w (n.first + 1) (omega arith) h (omega arith) b.sized ne in
    let place : q ≡ n.first + 1 = omega arith in
    let old = entry n (n.first + 1) in
    let new : TaskAccess = record old { remove_state = true } in
    let first_kept = get_or-set_ne n.tasks (n.first + 1) n.first new empty_access (omega arith) in
    let second_set = get_or-set_self n.tasks (n.first + 1) new empty_access (omega arith) in
    let stall =
      remove_task_stalls (marked n (n.first + 1)) w h (omega arith)
        (length-set n.tasks (n.first + 1) new ∙ b.sized) (ap (λ t. t.remove_state) second_set) in
    rw (run, place)
      (ap (λ t. remove_task (marked n (n.first + 1)) w t.handle) (sym first_kept) ∙ stall)

-- On a node on which at least two tasks run and others wait, the second task ends and then the
-- first, with different handles. Both calls return and start no task. Then let any calls follow each of which
-- either adds a task or removes the handle of one of the entries from `first` up to `firstNotReady`,
-- other than the handle that the entry at `first` has, which is the second task's, removed already. None of
-- these starts a task: `firstNotReady`, the counters and the pool stay as they were. Removals of the
-- handle at `first`, or of one that no entry has or only a waiting one, are not among these calls.
pub lost_wakeup :
    {n : ResourceNode} (w : World) {m : ResourceNode} {v : World}
    → IsBusy n
    → n.first + 1 < n.first_not_ready
    → (entry n n.first).handle ≢ (entry n (n.first + 1)).handle
    → Calls (both_removed n) w m v
    → ((remove_task n w (entry n (n.first + 1)).handle >>= λ (n', w').
          remove_task n' w' (entry n n.first).handle)
        ≡ ret (both_removed n, w))
      × (m.first_not_ready ≡ n.first_not_ready)
      × (v ≡ w)
lost_wakeup {n} w b h ne calls =
    let s = Calls-Stuck (both_removed-IsBusy n b h) calls in
    (removals n w b h ne, s.same_ready, s.same_world)
