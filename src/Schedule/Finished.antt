-- ===== src/Schedule/Finished.antt =====
-- include/Task.hpp: the queues and the counters once a task has left its nodes.
use rg.Prelude.{
  ℕ, ◌+◌, ◌^◌, ◌<◌, ◌≤◌, if◌then◌else◌, List, [], ◌∷◌, ◌++◌, ◌≡◌, refl, ap, arith, Bool-cases, inl,
  inr,
}
use rg.Node.{TaskAccess, ResourceNode, World}
use rg.Node.Queue.{
  parallel, promoted, left_waiting, parallel_prefix, parallel_rest, promote, finish, finish_from,
  started, started_from, notified, notified_all,
}
use rg.Node.View.{view, running, waiting}
use rg.Dispatch.Register.{queues}
use rg.Deregister.Leaves.{Distinct, among, notified_of, left_behind}
use rg.Schedule.{Below}
use rg.Schedule.Lists.{count, count-append, sum_over, sum_below_cong, sum_below-among, waiting_sum}
use rg.Schedule.Enqueued.{everyone}

parallel_parts :
    (t : TaskAccess) (us : List TaskAccess) → parallel_prefix t us ++ parallel_rest t us ≡ us
parallel_parts t [] = refl
parallel_parts t (u ∷ us) = elim (Bool-cases (parallel t u)) [
  | inl e ↦ rw e (ap (λ l. u ∷ l) (parallel_parts t us))
  | inr e ↦ rw e refl
]

promoted_parts : (ws : List TaskAccess) → promoted ws ++ left_waiting ws ≡ ws
promoted_parts [] = refl
promoted_parts (w ∷ ws) = ap (λ l. w ∷ l) (parallel_parts w ws)

-- The end of the oldest running task takes the first entry away.
pub finish-everyone :
    (r : TaskAccess) (rs ws : List TaskAccess) → everyone (finish_from (r ∷ rs) ws) ≡ rs ++ ws
unfolding finish_from promote
finish-everyone r [] ws = promoted_parts ws
finish-everyone r (s ∷ rs) ws = refl

finish-count :
    (rs ws : List TaskAccess) (p : ℕ)
    → count p (finish_from rs ws).waiting + count p (started_from rs ws) ≡ count p ws
unfolding finish_from promote started_from
finish-count [] ws p = omega arith
finish-count (r ∷ []) ws p =
    omega (
      arith,
      count-append p (promoted ws) (left_waiting ws),
      ap (λ l. count p l) (promoted_parts ws),
    )
finish-count (r ∷ s ∷ rs) ws p = omega arith

-- Each entry that is notified lowers its counter by one.
pub notified_all-counters :
    (ts : List TaskAccess) (w : World) (p : ℕ)
    → count p ts ≤ w.counters p
    → w.counters p < 2 ^ 32
    → (notified_all w ts).counters p + count p ts ≡ w.counters p
unfolding notified_all notified
notified_all-counters [] w p le small = omega arith
notified_all-counters (t ∷ ts) w p le small =
    let ih = notified_all-counters ts (notified w t) p in ground (arith, ih)

module _ (nodes : ℕ → ResourceNode) (p : ℕ) where
  -- The entries of the counter that start at a node.
  abbrev pub starting : ℕ → ℕ
  starting i = count p (started (view (nodes i)))

  pub notified_of-counters :
      (is : List ℕ) (w : World)
      → sum_over is starting ≤ w.counters p
      → w.counters p < 2 ^ 32
      → (notified_of nodes is w).counters p + sum_over is starting ≡ w.counters p
  notified_of-counters [] w le small = omega arith
  notified_of-counters (i ∷ is) w le small =
      let here = notified_all-counters (started (view (nodes i))) w p (omega arith) small in
      let w' = notified_all w (started (view (nodes i))) in
      omega (arith, here, notified_of-counters is w' (omega (arith, here)) (omega (arith, here)))

  left_behind-count :
      (is : List ℕ) (j : ℕ)
      → count p (left_behind nodes is j).waiting ≡ (
          if among j is
          then count p (finish (view (nodes j))).waiting
          else count p (view (nodes j)).waiting)
  left_behind-count is j = elim (Bool-cases (among j is)) [ inl e ↦ rw e refl | inr e ↦ rw e refl ]

  pub left_behind-sum :
      (N : ℕ) (is : List ℕ)
      → Below N is
      → Distinct is
      → waiting_sum N (left_behind nodes is) p + sum_over is starting
        ≡ waiting_sum N (queues nodes) p
  left_behind-sum N is below distinct =
      let a : ℕ → ℕ = λ j. count p (finish (view (nodes j))).waiting in
      let b : ℕ → ℕ = λ j. count p (view (nodes j)).waiting in
      let left : ℕ → ℕ = λ j. count p (left_behind nodes is j).waiting in
      let part : (j : ℕ) → a j + starting j ≡ b j =
        λ j. finish-count (running (nodes j)) (waiting (nodes j)) p in
      omega (
        arith,
        sum_below_cong N left (λ j. if among j is then a j else b j) (left_behind-count is),
        sum_below-among N a b starting is part below distinct,
      )

  -- A counter that says how many entries of the task wait says it again when another task has left.
  pub left_behind-counted :
      (N : ℕ) (is : List ℕ) (w : World)
      → Below N is
      → Distinct is
      → w.counters p < 2 ^ 32
      → w.counters p ≡ waiting_sum N (queues nodes) p
      → ((notified_of nodes is w).counters p ≡ waiting_sum N (left_behind nodes is) p)
        × ((notified_of nodes is w).counters p ≤ w.counters p)
  left_behind-counted N is w below distinct small e =
      let after = left_behind-sum N is below distinct in
      let counted = notified_of-counters is w (omega (arith, after)) small in
      (omega (arith, after, counted), omega (arith, counted))
