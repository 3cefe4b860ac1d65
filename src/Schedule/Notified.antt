-- ===== src/Schedule/Notified.antt =====
-- include/ResourceNode.hpp: what notifications pass on to the pool.
use rg.Prelude.{
  ℕ, ◌+◌, ◌^◌, ◌<◌, ◌≤◌, ◌==◌, if◌then◌else◌, List, [], ◌∷◌, ◌++◌, ◌≡◌, refl, ap, arith, Bool-cases,
  inl, inr,
}
use rg.Node.{TaskAccess, ResourceNode, World}
use rg.Node.Queue.{parallel, parallel_prefix, started, started_from, notified, notified_all}
use rg.Node.View.{view}
use rg.Deregister.Leaves.{notified_of}
use rg.Schedule.{times}
use rg.Schedule.Lists.{count, sum_over}
use rg.Schedule.Finished.{notified_all-counters, starting}
use rg.Schedule.Inv.{Every}

-- 1 for a counter that says that nothing is missing.
abbrev pub at_zero : ℕ → ℕ
at_zero c = if c == 0 then 1 else 0

-- The entry is one of the task with the counter `p` and the handle `h`, or has neither.
abbrev pub Agrees : ℕ → ℕ → TaskAccess → Type 0
Agrees p h t = (t.wait_counter_p == p) ≡ (t.handle == h)

pub times-snoc :
    (h x : ℕ) (xs : List ℕ) → times h (xs ++ (x ∷ [])) ≡ times h xs + (if x == h then 1 else 0)
times-snoc h x [] = omega arith
times-snoc h x (y ∷ xs) = omega (arith, times-snoc h x xs)

-- A notification passes the handle on exactly when it makes the counter 0.
notified-launch :
    (t : TaskAccess) (w : World) (p h : ℕ)
    → Agrees p h t
    → w.counters p < 2 ^ 32
    → count p (t ∷ []) ≤ w.counters p
    → times h (notified w t).added + at_zero (w.counters p)
      ≡ times h w.added + at_zero ((notified w t).counters p)
unfolding notified
notified-launch t w p h agrees small le = elim (Bool-cases (t.wait_counter_p == p)) [
  | inl e ↦
      let same : t.wait_counter_p ≡ p = ground arith in
      ground (arith, times-snoc h t.handle w.added, ap w.counters same)
  | inr e ↦ ground (arith, times-snoc h t.handle w.added)
]

pub notified_all-launch :
    (ts : List TaskAccess) (w : World) (p h : ℕ)
    → Every (Agrees p h) ts
    → w.counters p < 2 ^ 32
    → count p ts ≤ w.counters p
    → times h (notified_all w ts).added + at_zero (w.counters p)
      ≡ times h w.added + at_zero ((notified_all w ts).counters p)
unfolding notified_all
notified_all-launch [] w p h agrees small le = refl
notified_all-launch (t ∷ ts) w p h agrees small le =
    let here : (notified w t).counters p + count p (t ∷ []) ≡ w.counters p =
      notified_all-counters (t ∷ []) w p (omega arith) small in
    omega (
      arith,
      notified-launch t w p h agrees.0 small (omega arith),
      here,
      notified_all-launch ts (notified w t) p h agrees.1 (omega (arith, here))
          (omega (arith, here)),
    )

pub notified_of-launch :
    (nodes : ℕ → ResourceNode) (is : List ℕ) (w : World) (p h : ℕ)
    → ((i : ℕ) → Every (Agrees p h) (started (view (nodes i))))
    → w.counters p < 2 ^ 32
    → sum_over is (starting nodes p) ≤ w.counters p
    → times h (notified_of nodes is w).added + at_zero (w.counters p)
      ≡ times h w.added + at_zero ((notified_of nodes is w).counters p)
notified_of-launch nodes [] w p h agrees small le = refl
notified_of-launch nodes (i ∷ is) w p h agrees small le =
    let ts = started (view (nodes i)) in
    let here = notified_all-counters ts w p (omega arith) small in
    omega (
      arith,
      notified_all-launch ts w p h (agrees i) small (omega arith),
      notified_of-launch nodes is (notified_all w ts) p h agrees (omega (arith, here))
          (omega (arith, here)),
    )

module _ {ℓ} (P : TaskAccess → Type ℓ) where
  Every-parallel_prefix :
      (t : TaskAccess) (us : List TaskAccess) → Every P us → Every P (parallel_prefix t us)
  Every-parallel_prefix t [] all = tt
  Every-parallel_prefix t (u ∷ us) all = elim (Bool-cases (parallel t u)) [
    | inl e ↦ rw e (all.0, Every-parallel_prefix t us all.1)
    | inr e ↦ rw e tt
  ]

  pub Every-started : (rs ws : List TaskAccess) → Every P (rs ++ ws) → Every P (started_from rs ws)
  unfolding started_from
  Every-started [] ws all = tt
  Every-started (r ∷ []) [] all = tt
  Every-started (r ∷ []) (w ∷ ws) all = (all.1.0, Every-parallel_prefix w ws all.1.1)
  Every-started (r ∷ s ∷ rs) ws all = tt
