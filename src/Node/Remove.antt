-- ===== src/Node/Remove.antt =====
-- `remove_task` of the oldest running task ends it in the queue, as long as no younger task that
-- still counts as running has been marked as removed.
use rg.Prelude.{
  ℕ, zero, suc, ◌+◌, ◌-◌, ◌<◌, ◌≤◌, ◌≡◌, ◌≢◌, ◌==◌, ap, sym, subst, ◌∙◌, false, List, [], ◌∷◌,
  length, get_or, arith, refl, not, ◌&&◌,
}
use rg.Prelude.Exec.{ret}
use rg.Node.{
  TaskAccess, ResourceNode, World, empty_access, num_tasks, go_on, skip_removed, wake, remove_task,
}
use rg.Node.Queue.{
  Queue, promoted, left_waiting, parallel_prefix, promote, finish, finish_from, started,
  started_from, notified_all, Counted, IsSound,
}
use rg.Node.Window.{window, window_cong, length-window, load_in}
use rg.Node.Grant.{
  wake_lem, window-parallel_prefix, window-parallel_rest, length-parallel_prefix-le,
}
use rg.Node.Sound.{promote-IsSound, Blocked-tail}
use rg.Node.View.{view, IsValid, view-eq-stretches}

abbrev pub entry : ResourceNode → ℕ → TaskAccess
entry n i = get_or n.tasks i empty_access

-- The loop over removed tasks ends at once at a task that is not marked, and at `firstNotReady`.
skip_removed_stop :
    (fuel : ℕ) (n : ResourceNode) (cur : ℕ)
    → cur < length n.tasks
    → ((entry n cur).remove_state && not (cur == n.first_not_ready)) ≡ false
    → skip_removed (suc fuel) n cur ≡ ret (n, go_on cur, (entry n cur).remove_state)
unfolding skip_removed
skip_removed_stop fuel n cur b h = ground (arith, load_in n.tasks cur b)

wake_busy :
    (n : ResourceNode) (w : World) (cur : ℕ) → n.first_not_ready ≢ cur → wake n w cur ≡ ret (n, w)
unfolding wake
wake_busy n w cur h = ground arith

abbrev finished : ResourceNode → List TaskAccess → ResourceNode
finished n ready = record n {
  first = n.first + 1;
  first_not_ready = n.first_not_ready + length ready;
}

remove_task_stretches :
    (a k : ℕ) (n : ResourceNode) (w : World)
    → n.first_not_ready ≡ n.first + suc a
    → n.last ≡ n.first_not_ready + k
    → n.last < length n.tasks
    → length n.tasks ≡ num_tasks
    → ((entry n (n.first + 1)).remove_state && not (n.first + 1 == n.first_not_ready)) ≡ false
    → Counted (window n.tasks n.first_not_ready k)
    → let ready = started (record {
      running = window n.tasks n.first (suc a);
      waiting = window n.tasks n.first_not_ready k;
    }) in
      remove_task n w (entry n n.first).handle ≡ ret (finished n ready, notified_all w ready)
unfolding remove_task started_from notified_all
remove_task_stretches zero k n w p q room sized unmarked counted =
    let n1 : ResourceNode = record n { first = n.first + 1 } in
    ground (
      arith,
      load_in n.tasks n.first (omega arith),
      skip_removed_stop num_tasks n1 (n.first + 1) (omega arith) unmarked,
      wake_lem k n1 w q (omega arith) sized counted,
      p,
    )
remove_task_stretches (suc a) k n w p q room sized unmarked counted =
    let n1 : ResourceNode = record n { first = n.first + 1 } in
    let e : n.first_not_ready + 0 ≡ n.first_not_ready = omega arith in
    ground (
      arith,
      load_in n.tasks n.first (omega arith),
      skip_removed_stop num_tasks n1 (n.first + 1) (omega arith) unmarked,
      wake_busy n1 w (n.first + 1),
      e,
    )

module _ (ts : List TaskAccess) where
  window-promoted :
      (i k : ℕ) → window ts i (length (promoted (window ts i k))) ≡ promoted (window ts i k)
  window-promoted i zero = refl
  window-promoted i (suc k) =
      ap (λ l. get_or ts i empty_access ∷ l)
        (window-parallel_prefix ts (get_or ts i empty_access) (i + 1) k)

  window-left_waiting :
      (i k : ℕ)
      → window ts (i + length (promoted (window ts i k))) (k - length (promoted (window ts i k)))
        ≡ left_waiting (window ts i k)
  window-left_waiting i zero = window_cong ts (i + 0) i (0 - 0) 0 (omega arith) (omega arith)
  window-left_waiting i (suc k) =
      let u = get_or ts i empty_access in
      let g = length (parallel_prefix u (window ts (i + 1) k)) in
      window_cong ts (i + suc g) (i + 1 + g) (suc k - suc g) (k - g) (omega arith) (omega arith)
      ∙ window-parallel_rest ts u (i + 1) k

  length-promoted-le : (i k : ℕ) → length (promoted (window ts i k)) ≤ k
  length-promoted-le i zero = omega arith
  length-promoted-le i (suc k) =
      let u = get_or ts i empty_access in
      let us = window ts (i + 1) k in
      omega (arith, length-parallel_prefix-le u us, length-window ts (i + 1) k)

view-finished :
    (a k : ℕ) (n : ResourceNode)
    → n.first_not_ready ≡ n.first + suc a
    → n.last ≡ n.first_not_ready + k
    → let c : Queue = record {
      running = window n.tasks n.first (suc a);
      waiting = window n.tasks n.first_not_ready k;
    } in
      view (finished n (started c)) ≡ finish c
unfolding started_from finish_from promote
view-finished zero k n p q =
    let ready = promoted (window n.tasks n.first_not_ready k) in
    let fits = length-promoted-le n.tasks n.first_not_ready k in
    view-eq-stretches (finished n ready) (length ready) (k - length ready) (omega arith)
      (omega arith)
    ∙ rw (
      window_cong n.tasks (n.first + 1) n.first_not_ready (length ready) (length ready) (sym p)
          refl,
      window-promoted n.tasks n.first_not_ready k,
      window-left_waiting n.tasks n.first_not_ready k,
    )
view-finished (suc a) k n p q =
    view-eq-stretches (finished n []) (suc a) k (omega arith) (omega arith)
    ∙ rw (window_cong n.tasks (n.first_not_ready + 0) n.first_not_ready k k (omega arith) refl)

finish-IsSound :
    (rs ws : List TaskAccess)
    → IsSound (record { running = rs; waiting = ws })
    → IsSound (finish_from rs ws)
unfolding finish_from
finish-IsSound [] ws s = s
finish-IsSound (r ∷ []) ws s = promote-IsSound ws s.counted
finish-IsSound (r ∷ t ∷ rs) ws s = record {
  together = s.together.1;
  blocked = Blocked-tail r t rs ws s.together s.blocked;
  counted = s.counted;
}

length-started-le :
    (a k : ℕ) (n : ResourceNode)
    → length (
        started (record {
          running = window n.tasks n.first (suc a);
          waiting = window n.tasks n.first_not_ready k;
        }))
      ≤ k
unfolding started_from
length-started-le zero k n = length-promoted-le n.tasks n.first_not_ready k
length-started-le (suc a) k n = omega arith

finished-IsValid :
    (n : ResourceNode) (ready : List TaskAccess)
    → IsValid n
    → n.first < n.first_not_ready
    → length ready ≤ n.last - n.first_not_ready
    → IsSound (view (finished n ready))
    → IsValid (finished n ready)
finished-IsValid n ready v busy fits sound = record {
  sized = v.sized;
  ready_in = omega arith;
  waiting_in = omega arith;
  last_in = v.last_in;
  sound = sound;
}

marked-false :
    (n : ResourceNode)
    → n.first < n.first_not_ready
    → (n.first + 1 < n.first_not_ready → (entry n (n.first + 1)).remove_state ≡ false)
    → ((entry n (n.first + 1)).remove_state && not (n.first + 1 == n.first_not_ready)) ≡ false
marked-false n busy unmarked = ground arith

-- The call returns, having ended the oldest task of the queue.
abbrev Ends : ResourceNode → World → Queue → Type 0
Ends n w q =
    (n' : ResourceNode) × (remove_task n w (entry n n.first).handle
      ≡ ret (n', notified_all w (started q)))
    × (view n' ≡ finish q)
    × (n'.last ≡ n.last)
    × IsValid n'

-- On a valid node with room, the removal of the oldest running task, with the task behind it not
-- marked as removed, returns and ends that task in the queue. The waiting tasks that it lets start
-- have their counters lowered, oldest first, and go to the pool when that was their last resource.
-- The node stays valid, and takes as many more tasks as before.
pub remove_task_refines :
    {n : ResourceNode} (w : World)
    → IsValid n
    → n.first < n.first_not_ready
    → n.last < num_tasks
    → (n.first + 1 < n.first_not_ready → (entry n (n.first + 1)).remove_state ≡ false)
    → (n' : ResourceNode) × (remove_task n w (entry n n.first).handle
        ≡ ret (n', notified_all w (started (view n))))
      × (view n' ≡ finish (view n))
      × (n'.last ≡ n.last)
      × IsValid n'
remove_task_refines {n} w v busy room unmarked =
    let k = n.last - n.first_not_ready in
    let a = n.first_not_ready - n.first - 1 in
    let p : n.first_not_ready ≡ n.first + suc a = omega arith in
    let q : n.last ≡ n.first_not_ready + k = omega arith in
    let c : Queue = record {
      running = window n.tasks n.first (suc a);
      waiting = window n.tasks n.first_not_ready k;
    } in
    let same : view n ≡ c = view-eq-stretches n (suc a) k p q in
    let sound : IsSound c = subst IsSound same v.sound in
    let seen = view-finished a k n p q in
    subst (Ends n w) (sym same) (
      finished n (started c),
      remove_task_stretches a k n w p q (omega arith) v.sized (marked-false n busy unmarked)
          sound.counted,
      seen,
      refl,
      finished-IsValid n (started c) v busy (length-started-le a k n)
          (subst IsSound (sym seen) (finish-IsSound c.running c.waiting sound)),
    )
