-- ===== src/Schedule/Left.antt =====
-- include/Task.hpp: nodes and counters before and after the end of a task.
use rg.Prelude.{
  ℕ, ◌^◌, ◌<◌, List, ◌∷◌, ◌++◌, ◌≡◌, refl, ap, subst, ◌∙◌, arith, Bool-cases, inl, inr,
}
use rg.Prelude.Exec.{ret}
use rg.Node.View.{view, waiting}
use rg.Dispatch.{Store, task_access}
use rg.Dispatch.Register.{resource_nodes}
use rg.Deregister.{deregister}
use rg.Deregister.Leaves.{Distinct, among, notified_of, left_behind, deregister-leaves}
use rg.Schedule.{Live, NoneShares, wait_counters, entries_at}
use rg.Schedule.Lists.{count, sum_below_cong}
use rg.Schedule.Enqueued.{everyone}
use rg.Schedule.Finished.{finish-everyone, left_behind-counted}
use rg.Schedule.Inv.{
  Inv, IsLive, Every-append, Every-split, Every-map, wait_counters-append, entries_at-append,
  Distinct-middle, entries_of-miss,
}
use rg.Schedule.Oldest.{NoneShares-none, middle-IsLive, leads, leads-AllOldest}
use rg.Schedule.Dispatched.{system}

module _ (N : ℕ) (s : Store) (t : Live) (earlier later : List Live)
    (i : Inv N (system s (earlier ++ (t ∷ later))))
    (none : NoneShares earlier (resource_nodes t.args)) where
  abbrev nodes : List ℕ
  nodes = resource_nodes t.args

  left-everyone : (j : ℕ) → everyone (left_behind s.nodes nodes j) ≡ entries_at j (earlier ++ later)
  left-everyone j = elim (Bool-cases (among j nodes)) [
    | inl e ↦
        let l = leads N s t earlier later i none j e in
        rw (e, l.runs, finish-everyone (task_access t.co l.mode) l.behind (waiting (s.nodes j)))
          (l.others
            ∙ rw (entries_at-append j earlier later, NoneShares-none earlier nodes j none e) refl)
    | inr e ↦ rw e (
        i.in_order j
        ∙ rw
            (
              entries_at-append j earlier (t ∷ later),
              entries_at-append j earlier later,
              entries_of-miss t.co j t.args e,
            )
            refl)
  ]

  left-own : Distinct (wait_counters (earlier ++ later))
  left-own =
      let all = subst Distinct (wait_counters-append earlier (t ∷ later)) i.own in
      let (_, _, d) =
        Distinct-middle (wait_counters earlier) t.co.wait_counter_p (wait_counters later) all in
      rw (wait_counters-append earlier later) d

  left-IsLive :
      (s' : Store)
      → s'.world ≡ notified_of s.nodes nodes s.world
      → ((j : ℕ) → view (s'.nodes j) ≡ left_behind s.nodes nodes j)
      → (u : Live) → IsLive N s u
      → IsLive N s' u
  left-IsLive s' world views u l =
      let p = u.co.wait_counter_p in
      let mine = middle-IsLive N s t earlier later i none in
      let small : s.world.counters p < 2 ^ 32 = omega (arith, l.small) in
      let (counted, le) =
        left_behind-counted s.nodes p N nodes s.world mine.below mine.distinct small l.counted in
      let now = ap (λ w. w.counters p) world in
      let sums =
        sum_below_cong N (λ j. count p (waiting (s'.nodes j)))
          (λ j. count p (left_behind s.nodes nodes j).waiting)
          (λ j. ap (λ q. count p q.waiting) (views j)) in
      record {
        counter = l.counter;
        nodes_of = l.nodes_of;
        distinct = l.distinct;
        below = l.below;
        small = omega (arith, now, le, l.small);
        counted = omega (arith, now, counted, sums);
      }

  -- The end returns, and what it leaves is in order.
  pub left-Inv :
      (s' : Store) × (deregister t.co.handle t.listed s ≡ ret s')
      × Inv N (system s' (earlier ++ later))
  left-Inv =
      let mine = middle-IsLive N s t earlier later i none in
      let (nodes', run, valid, lasts, views) =
        deregister-leaves t.co.handle nodes s.nodes s.world i.valid
          (leads-AllOldest N s t earlier later i none) mine.distinct in
      let s' : Store = record { nodes = nodes'; world = notified_of s.nodes nodes s.world } in
      let (before, after) = Every-split (IsLive N s) earlier (t ∷ later) i.live in
      let keep = Every-map (IsLive N s) (IsLive N s') (left-IsLive s' refl views) in
      (
        s',
        ap (λ l. deregister t.co.handle l s) mine.nodes_of ∙ run,
        record {
          valid = valid;
          room = λ j. omega (arith, lasts j, i.room j);
          in_order = λ j. ap everyone (views j) ∙ left-everyone j;
          own = left-own;
          live =
              Every-append (IsLive N s') earlier later (keep earlier before) (keep later after.1);
        },
      )
