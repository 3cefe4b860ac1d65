-- ===== src/Node/Grant.antt =====
-- The loops that make waiting tasks ready.
use rg.Prelude.{
  ℕ, zero, suc, ◌+◌, ◌-◌, ◌≤◌, ◌<◌, Bool, true, false, List, [], ◌∷◌, ◌≡◌, ◌≢◌, refl, ◌∙◌, length,
  get_or, arith, Bool-cases, inl, inr,
}
use rg.Prelude.Exec.{ret}
use rg.Access.{is_serial_access}
use rg.Node.{
  TaskAccess, ResourceNode, World, empty_access, num_tasks, notify, notify_parallel, notify_rest,
  wake,
}
use rg.Node.Queue.{
  parallel, parallel_prefix, parallel_rest, promoted, notified, notified_all, Counted,
}
use rg.Node.Window.{window, window_cong, load_in}

pub notify-eq-notified :
    (w : World) (t : TaskAccess) → t.wait_counter_p ≢ 0 → notify w t ≡ ret (notified w t)
unfolding notify notified
notify-eq-notified w t h = ground arith

module _ (ts : List TaskAccess) (t : TaskAccess) where
  pub window-parallel_prefix :
      (i k : ℕ)
      → window ts i (length (parallel_prefix t (window ts i k))) ≡ parallel_prefix t (window ts i k)
  window-parallel_prefix i zero = refl
  window-parallel_prefix i (suc k) = ground (arith, window-parallel_prefix (i + 1) k)

  pub window-parallel_rest :
      (i k : ℕ)
      → window ts
          (i + length (parallel_prefix t (window ts i k)))
          (k - length (parallel_prefix t (window ts i k)))
        ≡ parallel_rest t (window ts i k)
  window-parallel_rest i zero = refl
  window-parallel_rest i (suc k) = elim (Bool-cases (parallel t (get_or ts i empty_access))) [
    | inl e ↦
        let g = length (parallel_prefix t (window ts (i + 1) k)) in
        rw e (
          window_cong ts (i + suc g) (i + 1 + g) (suc k - suc g) (k - g) (omega arith) (omega arith)
          ∙ window-parallel_rest (i + 1) k)
    | inr e ↦ rw e (window_cong ts (i + 0) i (suc k - 0) (suc k) (omega arith) (omega arith))
  ]

pub length-parallel_prefix-le :
    (t : TaskAccess) (us : List TaskAccess) → length (parallel_prefix t us) ≤ length us
length-parallel_prefix-le t [] = omega arith
length-parallel_prefix-le t (u ∷ us) = ground (arith, length-parallel_prefix-le t us)

-- The inner loop makes exactly the parallel prefix of the waiting tasks ready.
notify_parallel_lem :
    (k fuel : ℕ) (n : ResourceNode) (w : World) (t : TaskAccess) (fnr : ℕ) (pe : Bool)
    → k < fuel
    → fnr + k ≤ length n.tasks
    → Counted (window n.tasks fnr k)
    → let ready = parallel_prefix t (window n.tasks fnr k) in
      (pe' : Bool) × (notify_parallel fuel
          (record n { first_not_ready = fnr })
          w
          t.access_mode
          fnr
          (fnr + k)
          pe
        ≡ ret (
          record n { first_not_ready = fnr + length ready },
          notified_all w ready,
          fnr + length ready,
          pe',
        ))
unfolding notify_parallel notified_all
notify_parallel_lem k zero n w t fnr pe h b c = absurd (omega arith)
notify_parallel_lem zero (suc fuel) n w t fnr pe h b c =
    let e : fnr + 0 ≡ fnr = omega arith in (pe, ground (arith, e))
notify_parallel_lem (suc k) (suc fuel) n w t fnr pe h b c =
    let u = get_or n.tasks fnr empty_access in
    let (pe', ih) =
      notify_parallel_lem k fuel n (notified w u) t (fnr + 1) true (omega arith) (omega arith)
        c.1 in
    let g = length (parallel_prefix t (window n.tasks (fnr + 1) k)) in
    let e1 : fnr + 1 + k ≡ fnr + suc k = omega arith in
    let e2 : fnr + 1 + g ≡ fnr + suc g = omega arith in
    elim (Bool-cases (is_serial_access t.access_mode u.access_mode)) [
      | inl e ↦ (false, ground (arith, load_in n.tasks fnr (omega arith)))
      | inr e ↦ (
        pe',
        ground (arith, load_in n.tasks fnr (omega arith), ih, notify-eq-notified w u, e1, e2),
      )
    ]

-- While `last` stands still the outer loop runs once.
notify_rest_lem :
    (k fuel : ℕ) (n : ResourceNode) (w : World) (t : TaskAccess) (fnr : ℕ)
    → k ≤ num_tasks
    → n.last ≡ fnr + k
    → n.last ≤ length n.tasks
    → Counted (window n.tasks fnr k)
    → let ready = parallel_prefix t (window n.tasks fnr k) in
      notify_rest (suc fuel) (record n { first_not_ready = fnr }) w t.access_mode fnr
      ≡ ret (record n { first_not_ready = fnr + length ready }, notified_all w ready)
unfolding notify_rest
notify_rest_lem k fuel n w t fnr h e b c =
    let (pe', inner) =
      notify_parallel_lem k (num_tasks + 1) n w t fnr false (omega arith) (omega arith) c in
    ground (arith, inner)

-- With nothing running at `cur`, the second half of `remove_task` makes exactly the tasks ready
-- that the abstract queue promotes.
pub wake_lem :
    (k : ℕ) (n : ResourceNode) (w : World)
    → n.last ≡ n.first_not_ready + k
    → n.last ≤ num_tasks
    → length n.tasks ≡ num_tasks
    → Counted (window n.tasks n.first_not_ready k)
    → let ready = promoted (window n.tasks n.first_not_ready k) in
      wake n w n.first_not_ready
      ≡ ret (record n { first_not_ready = n.first_not_ready + length ready }, notified_all w ready)
unfolding wake notified_all
wake_lem zero n w h b s c =
    let e : n.first_not_ready + 0 ≡ n.first_not_ready = omega arith in ground (arith, e)
wake_lem (suc k) n w h b s c =
    let fnr = n.first_not_ready in
    let u = get_or n.tasks fnr empty_access in
    let g = length (parallel_prefix u (window n.tasks (fnr + 1) k)) in
    let e : fnr + 1 + g ≡ fnr + suc g = omega arith in
    ground (
      arith,
      load_in n.tasks fnr (omega arith),
      notify-eq-notified w u,
      e,
      notify_rest_lem k num_tasks n (notified w u) u (fnr + 1) (omega arith) (omega arith)
          (omega arith) c.1,
    )
