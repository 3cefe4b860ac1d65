-- ===== src/Node/Add.antt =====
-- `add_task` enqueues, and starts the task at once exactly when the queue lets it.
use rg.Prelude.{
  refl, ℕ, zero, suc, ◌+◌, ◌-◌, ◌%◌, ◌^◌, ◌<◌, ◌≡◌, ◌≢◌, ap, sym, subst, ◌∙◌, Bool, true, false,
  if◌then◌else◌, Bool-cases, inl, inr, length, length-set, get_or, get_or-set_ne, set, arith,
}
use rg.Prelude.Exec.{ret}
use rg.Node.{TaskAccess, ResourceNode, World, empty_access, num_tasks, grant_now, add_task}
use rg.Node.Queue.{Queue, parallel, admits, starts, enqueue, counted_down, Together, IsSound}
use rg.Node.Window.{window, window-suc, window-set_above, window-set_end, load_in}
use rg.Node.Sound.{admits-eq-parallel, enqueue-IsSound}
use rg.Node.View.{view, IsValid, IsValid-gaps, view-eq-stretches}

-- The node after `add_task`, by whether the new task starts at once.
abbrev added : ResourceNode → TaskAccess → Bool → ResourceNode
added n t now = record n {
  tasks = set n.tasks n.last t;
  last = n.last + 1;
  first_not_ready = if now then n.first_not_ready + 1 else n.first_not_ready;
}

add_task_stretches :
    (a k : ℕ) (n : ResourceNode) (w : World) (t : TaskAccess)
    → n.first_not_ready ≡ n.first + a
    → n.last ≡ n.first_not_ready + k
    → n.last < length n.tasks
    → length n.tasks ≡ num_tasks
    → t.wait_counter_p ≢ 0
    → Together (window n.tasks n.first a)
    → let now =
        starts
          (record {
            running = window n.tasks n.first a;
            waiting = window n.tasks n.first_not_ready k;
          })
          t in
      add_task n w t ≡ ret (added n t now, if now then counted_down w t else w)
unfolding add_task grant_now
add_task_stretches a (suc k) n w t p q room sized counter together = ground arith
add_task_stretches zero zero n w t p q room sized counter together = ground arith
add_task_stretches (suc a) zero n w t p q room sized counter together =
    let r = get_or n.tasks (n.first + a) empty_access in
    let split = window-suc n.tasks n.first a in
    let test : admits (window n.tasks n.first (suc a)) t ≡ parallel t r =
      ap (λ l. admits l t) split
      ∙ admits-eq-parallel (window n.tasks n.first a) r t (subst Together split together) in
    let e : (n.last + 2 ^ 32 - 1) % 2 ^ 32 ≡ n.first + a = omega arith in
    ground (
      arith,
      test,
      e,
      load_in (set n.tasks n.last t) (n.first + a),
      length-set n.tasks n.last t,
      get_or-set_ne n.tasks n.last (n.first + a) t empty_access,
    )

-- The new node stands for the queue with the task enqueued.
view-added :
    (a k : ℕ) (n : ResourceNode) (t : TaskAccess)
    → n.first_not_ready ≡ n.first + a
    → n.last ≡ n.first_not_ready + k
    → n.last < length n.tasks
    → let c : Queue = record {
      running = window n.tasks n.first a;
      waiting = window n.tasks n.first_not_ready k;
    } in
      view (added n t (starts c t)) ≡ enqueue c t
unfolding enqueue
view-added a (suc k) n t p q room =
    view-eq-stretches (added n t false) a (suc (suc k)) p (omega arith)
    ∙ rw (
      window-set_above n.tasks n.first a n.last t (omega arith),
      window-set_end n.tasks n.first_not_ready (suc k) n.last t (sym q) room,
    )
view-added a zero n t p q room = elim (Bool-cases (admits (window n.tasks n.first a) t)) [
  | inl e ↦ rw e (
      view-eq-stretches (added n t true) (suc a) 0 (omega arith) (omega arith)
      ∙ rw (window-set_end n.tasks n.first a n.last t (omega arith) room))
  | inr e ↦ rw e (
      view-eq-stretches (added n t false) a 1 (omega arith) (omega arith)
      ∙ rw (
        window-set_above n.tasks n.first a n.last t (omega arith),
        window-set_end n.tasks n.first_not_ready 0 n.last t (sym q) room,
      ))
]

added-IsValid :
    {n : ResourceNode} (t : TaskAccess)
    → IsValid n
    → n.last < num_tasks
    → t.wait_counter_p ≢ 0
    → view (added n t (starts (view n) t)) ≡ enqueue (view n) t
    → IsValid (added n t (starts (view n) t))
added-IsValid {n} t v room counter e = record {
  sized = length-set n.tasks n.last t ∙ v.sized;
  ready_in = ground arith;
  waiting_in = ground arith;
  last_in = omega arith;
  sound = subst IsSound (sym e) (enqueue-IsSound (view n) t v.sound counter);
}

-- `add_task` on a node with room returns, enqueues the task, lowers its wait counter exactly when
-- the queue lets it start at once, adds nothing to the pool, and keeps the node valid.
pub add_task_refines :
    {n : ResourceNode} (w : World) (t : TaskAccess)
    → IsValid n
    → n.last < num_tasks
    → t.wait_counter_p ≢ 0
    → (n' : ResourceNode) × (add_task n w t
        ≡ ret (n', if starts (view n) t then counted_down w t else w))
      × (view n' ≡ enqueue (view n) t)
      × (n'.last ≡ n.last + 1)
      × IsValid n'
add_task_refines {n} w t v room counter =
    let (p, q) = IsValid-gaps v in
    let a = n.first_not_ready - n.first in
    let k = n.last - n.first_not_ready in
    let e = view-added a k n t p q (omega arith) in
    (
      added n t (starts (view n) t),
      add_task_stretches a k n w t p q (omega arith) v.sized counter v.sound.together,
      e,
      refl,
      added-IsValid t v room counter e,
    )
