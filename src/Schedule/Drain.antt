-- ===== src/Schedule/Drain.antt =====
-- include/Task.hpp: the end of a task that shares no resource with an earlier one, and of all
-- tasks.
use rg.Prelude.{ℕ, List, [], ◌∷◌, ◌++◌, ◌≡◌, refl, ap, ◌∙◌, subst, arith, Bool-cases, inl, inr}
use rg.Node.{World}
use rg.Node.View.{view, running, waiting}
use rg.Dispatch.{Store}
use rg.Dispatch.Register.{resource_nodes}
use rg.Prelude.Exec.{ret}
use rg.Deregister.{deregister}
use rg.Deregister.Leaves.{Distinct, among}
use rg.Schedule.{Live, System, NoneShares, Step, ends, Steps, start, wait_counters, entries_at}
use rg.Schedule.Lists.{count, count-append, sum_below-zero}
use rg.Schedule.Enqueued.{everyone}
use rg.Schedule.Inv.{
  Inv, Distinct-middle, wait_counters-append, entries_at-append, entries_at-count, entries_of-miss,
}
use rg.Schedule.Oldest.{leads, middle-IsLive}
use rg.Schedule.Dispatched.{system}
use rg.Schedule.Left.{left-Inv}
use rg.Schedule.Kept.{reachable-Inv}

module _ (N : ℕ) (s : Store) (t : Live) (earlier later : List Live)
    (i : Inv N (system s (earlier ++ (t ∷ later))))
    (apart : NoneShares earlier (resource_nodes t.args)) where
  front-waits_nowhere : (j : ℕ) → count t.co.wait_counter_p (waiting (s.nodes j)) ≡ 0
  front-waits_nowhere j =
      let p = t.co.wait_counter_p in
      let all = subst Distinct (wait_counters-append earlier (t ∷ later)) i.own in
      let (a, b, _) = Distinct-middle (wait_counters earlier) p (wait_counters later) all in
      let behind = entries_at-count p j later b in
      elim (Bool-cases (among j (resource_nodes t.args))) [
        | inl e ↦
            let l = leads N s t earlier later i apart j e in
            omega (
              arith,
              count-append p l.behind (waiting (s.nodes j)),
              ap (λ q. count p q) l.others,
              behind,
            )
        | inr e ↦
            let whole : everyone (view (s.nodes j)) ≡ entries_at j earlier ++ entries_at j later =
              i.in_order j
              ∙ rw (entries_at-append j earlier (t ∷ later), entries_of-miss t.co j t.args e)
                  refl in
            omega (
              arith,
              ap (λ q. count p q) whole,
              count-append p (running (s.nodes j)) (waiting (s.nodes j)),
              count-append p (entries_at j earlier) (entries_at j later),
              entries_at-count p j earlier a,
              behind,
            )
      ]

  front-ready : s.world.counters t.co.wait_counter_p ≡ 0
  front-ready =
      (middle-IsLive N s t earlier later i apart).counted
      ∙ sum_below-zero N (λ j. count t.co.wait_counter_p (waiting (s.nodes j))) front-waits_nowhere

-- In every state that a program reaches by the steps of `Step`, under the conditions that these
-- have, an unfinished task that shares no resource with an earlier unfinished one waits for
-- nothing: its counter is 0. Its end is a step that can be taken: the removals from all its nodes
-- return.
pub front_progress :
    (N : ℕ) (w : World) (s : Store) (t : Live) (earlier later : List Live)
    → Steps N (start w) (system s (earlier ++ (t ∷ later)))
    → NoneShares earlier (resource_nodes t.args)
    → (s.world.counters t.co.wait_counter_p ≡ 0)
      × ((s' : Store) × Step N (system s (earlier ++ (t ∷ later))) (system s' (earlier ++ later)))
front_progress N w s t earlier later r apart =
    let i = reachable-Inv N w (system s (earlier ++ (t ∷ later))) r in
    let (s', run, _) = left-Inv N s t earlier later i apart in
    (front-ready N s t earlier later i apart, (s', ends t s s' earlier later apart run))

-- The tasks of a list end, oldest first, each when its counter says that it waits for nothing.
pub data Drains (N : ℕ) : Store → List Live → Store → Type 0 where
  drained : (s : Store) → Drains N s [] s
  next_ends :
      (t : Live) (ts : List Live) (s s' s'' : Store)
      → s.world.counters t.co.wait_counter_p ≡ 0
      → deregister t.co.handle t.listed s ≡ ret s'
      → Step N (system s (t ∷ ts)) (system s' ts)
      → Drains N s' ts s''
      → Drains N s (t ∷ ts) s''

drain_all :
    (N : ℕ) (ts : List Live) (s : Store) → Inv N (system s ts) → (s' : Store) × Drains N s ts s'
drain_all N [] s i = (s, drained s)
drain_all N (t ∷ ts) s i =
    let ready = front-ready N s t [] ts i tt in
    let (s', run, i') = left-Inv N s t [] ts i tt in
    let (s'', rest) = drain_all N ts s' i' in
    (s'', next_ends t ts s s' s'' ready run (ends t s s' [] ts tt run) rest)

-- From every state that a program reaches by the steps of `Step`, under the conditions that these
-- have, the unfinished tasks can end one after the other, the oldest first, until none is left. Whenever
-- it is the turn of one, its counter is 0, so that the ends before it have woken it, and the removals
-- from all its nodes return.
pub drains :
    (N : ℕ) (w : World) (s : System)
    → Steps N (start w) s
    → (s' : Store) × Drains N s.store s.tasks s'
drains N w s r = drain_all N s.tasks s.store (reachable-Inv N w s r)
