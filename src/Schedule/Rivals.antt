-- ===== src/Schedule/Rivals.antt =====
-- include/dispatchTask.hpp and include/ResourceNode.hpp: tasks whose counter is 0, and the
-- accesses before them.
use mathlib.Core.List.Memᴰ.{Memᴰ, head, tail, append_left, append_right, append_cases}
use rg.Prelude.{
  ℕ, ◌<◌, ◌==◌, List, [], ◌∷◌, ◌++◌, ◌≡◌, refl, ap, sym, ◌∙◌, subst, arith, Bool-cases, inl, inr,
  true, false,
}
use rg.Access.{AccessMode, is_serial_access}
use rg.Node.{TaskAccess, World}
use rg.Node.Queue.{parallel, admits, Together}
use rg.Node.View.{running, waiting}
use rg.Dispatch.{Store, Argument, plain, access, Coroutine, task_access}
use rg.Dispatch.Register.{resource_nodes}
use rg.Schedule.{Live, Below, Steps, start, entries_of, entries_at}
use rg.Schedule.Lists.{count, sum_below-part}
use rg.Schedule.Inv.{IsLive, Every-split, entries_at-append}
use rg.Schedule.Dispatched.{system}
use rg.Schedule.Kept.{reachable-Inv}

admits-Mem :
    (rs : List TaskAccess) (t y : TaskAccess) → admits rs t ≡ true → Memᴰ y rs → parallel t y ≡ true
admits-Mem [] t y h m = elim m [ ]
admits-Mem (r ∷ rs) t y h (head e) = ap (parallel t) e ∙ ground arith
admits-Mem (r ∷ rs) t y h (tail m) = admits-Mem rs t y (ground arith) m

module _ (p : ℕ) (x y : TaskAccess) (own : y.wait_counter_p ≡ p) where
  pub count-Mem : (ws : List TaskAccess) → Memᴰ y ws → 0 < count p ws
  count-Mem [] m = elim m [ ]
  count-Mem (w ∷ ws) (head e) =
      let same : w.wait_counter_p ≡ p = sym (ap (λ t. t.wait_counter_p) e) ∙ own in
      let yes : (w.wait_counter_p == p) ≡ true = ground arith in rw yes (omega arith)
  count-Mem (w ∷ ws) (tail m) = omega (arith, count-Mem ws m)

  -- `x` is among the first entries and `y` behind them, and none of its entries waits.
  Together-parallel :
      (rs ws front back : List TaskAccess)
      → rs ++ ws ≡ front ++ back
      → Memᴰ x front
      → Memᴰ y back
      → count p ws ≡ 0
      → Together rs
      → parallel x y ≡ true
  Together-parallel [] ws [] back e mx my none t = elim mx [ ]
  Together-parallel (r ∷ rs) ws [] back e mx my none t = elim mx [ ]
  Together-parallel [] ws (f ∷ front) back e mx my none t =
      let m = subst (Memᴰ y) (sym e) (append_right (f ∷ front) my) in
      absurd (omega (arith, count-Mem ws m))
  Together-parallel (r ∷ rs) ws (f ∷ front) back e (head ex) my none t =
      let same : r ≡ x = cc in
      let behind : rs ++ ws ≡ front ++ back = cc in
      let m = subst (Memᴰ y) (sym behind) (append_right front my) in
      elim (append_cases rs m) [
        | inl here ↦ subst (λ z. parallel z y ≡ true) same (admits-Mem rs r y t.0 here)
        | inr there ↦ absurd (omega (arith, count-Mem ws there))
      ]
  Together-parallel (r ∷ rs) ws (f ∷ front) back e (tail mx) my none t =
      let behind : rs ++ ws ≡ front ++ back = cc in
      Together-parallel rs ws front back behind mx my none t.1

module _ (node : ℕ) (mode : AccessMode) where
  pub entries_of-Mem :
      (co : Coroutine) (args : List Argument)
      → Memᴰ (access node mode) args
      → Memᴰ (task_access co mode) (entries_of node co args)
  entries_of-Mem co [] m = elim m [ ]
  entries_of-Mem co (plain ∷ args) (head e) = cc
  entries_of-Mem co (access k m ∷ args) (head e) =
      let same : k ≡ node = cc in
      let alike : mode ≡ m = cc in
      let yes : (k == node) ≡ true = ground arith in rw yes (head (ap (task_access co) alike))
  entries_of-Mem co (plain ∷ args) (tail h) = entries_of-Mem co args h
  entries_of-Mem co (access k m ∷ args) (tail h) = elim (Bool-cases (k == node)) [
    | inl e ↦ rw e (tail (entries_of-Mem co args h))
    | inr e ↦ rw e (entries_of-Mem co args h)
  ]

  entries_at-Mem :
      (t : Live) (ts : List Live)
      → Memᴰ t ts
      → Memᴰ (access node mode) t.args
      → Memᴰ (task_access t.co mode) (entries_at node ts)
  entries_at-Mem t [] m h = elim m [ ]
  entries_at-Mem t (u ∷ ts) (head e) h =
      subst (λ v. Memᴰ (task_access t.co mode) (entries_of node v.co v.args ++ entries_at node ts))
        e (append_left (entries_at node ts) (entries_of-Mem t.co t.args h))
  entries_at-Mem t (u ∷ ts) (tail m) h =
      append_right (entries_of node u.co u.args) (entries_at-Mem t ts m h)

  Below-Mem :
      (N : ℕ) (args : List Argument)
      → Below N (resource_nodes args)
      → Memᴰ (access node mode) args
      → node < N
  Below-Mem N [] b m = elim m [ ]
  Below-Mem N (plain ∷ args) b (head e) = cc
  Below-Mem N (access k m ∷ args) b (head e) = let same : k ≡ node = cc in omega (arith, b.0)
  Below-Mem N (plain ∷ args) b (tail h) = Below-Mem N args b h
  Below-Mem N (access k m ∷ args) b (tail h) = Below-Mem N args b.1 h

-- In every state that a program reaches by the steps of `Step`, under the conditions that these
-- have, a task whose counter is 0 has no access that conflicts with an access of an unfinished
-- task that was dispatched before it: the modes of two accesses to one resource, one of each
-- task, are never serial.
pub ready-not_rival :
    (N : ℕ) (w : World) (s : Store) (t u : Live) (earlier later : List Live) (node : ℕ)
    (mode mode' : AccessMode)
    → Steps N (start w) (system s (earlier ++ (u ∷ later)))
    → s.world.counters u.co.wait_counter_p ≡ 0
    → Memᴰ t earlier
    → Memᴰ (access node mode) t.args
    → Memᴰ (access node mode') u.args
    → is_serial_access mode mode' ≡ false
ready-not_rival N w s t u earlier later node mode mode' r zero older ht hu =
    let p = u.co.wait_counter_p in
    let i = reachable-Inv N w (system s (earlier ++ (u ∷ later))) r in
    let l : IsLive N s u = (Every-split (IsLive N s) earlier (u ∷ later) i.live).1.0 in
    let low = Below-Mem node mode' N u.args l.below hu in
    let part = sum_below-part N (λ j. count p (waiting (s.nodes j))) node low in
    let nowhere : count p (waiting (s.nodes node)) ≡ 0 = omega (arith, part, l.counted) in
    let x = task_access t.co mode in
    let y = task_access u.co mode' in
    let beside : parallel x y ≡ true =
      Together-parallel p x y refl (running (s.nodes node)) (waiting (s.nodes node))
        (entries_at node earlier) (entries_at node (u ∷ later))
        (i.in_order node ∙ entries_at-append node earlier (u ∷ later))
        (entries_at-Mem node mode t earlier older ht)
        (append_left (entries_at node later) (entries_of-Mem node mode' u.co u.args hu)) nowhere
        (i.valid node).sound.together in
    ground arith
