-- ===== src/Schedule/Launch.antt =====
-- include/dispatchTask.hpp and include/ResourceNode.hpp: how often a task is launched, by its
-- dispatch or through the pool.
use mathlib.Core.List.Memᴰ.{Memᴰ, head, tail, append_cases, eq_of_singleton}
use rg.Prelude.{
  ℕ, ◌+◌, ◌==◌, if◌then◌else◌, List, [], ◌∷◌, ◌++◌, ◌≡◌, ◌≢◌, refl, ap, sym, ◌∙◌, subst, arith, inl,
  inr,
}
use rg.Prelude.Exec.{ret, ret-injective}
use rg.Node.{World}
use rg.Node.Queue.{started}
use rg.Node.View.{view, running, waiting}
use rg.Dispatch.{Store}
use rg.Dispatch.Register.{accesses, resource_nodes, queues, started_now}
use rg.Deregister.{deregister}
use rg.Deregister.Leaves.{Distinct, notified_of, deregister-leaves}
use rg.Schedule.{
  Live, System, IsCall, NoneShares, Step, dispatches, barriers, ends, Steps, no_step, one_step,
  start, times, handles,
}
use rg.Schedule.Finished.{left_behind-sum}
use rg.Schedule.Inv.{Inv, IsLive, Every, Distinct-snoc, Distinct-middle}
use rg.Schedule.Oldest.{leads-AllOldest, middle-IsLive}
use rg.Schedule.Entered.{dispatch-Enqueued, barrier-Enqueued}
use rg.Schedule.Dispatched.{system}
use rg.Schedule.Kept.{Step-Inv, start-Inv}
use rg.Schedule.Notified.{at_zero, Agrees, notified_of-launch, Every-started}
use rg.Schedule.Alike.{entries_at-Agrees, all_Alike, wait_counters-ne}

-- The handle of the task was passed to the pool since its dispatch exactly if the counter has become
-- 0, unless the dispatch itself found the task ready.
abbrev pub LaunchedOnce : Store → Live → Type 0
LaunchedOnce s t =
    times t.co.handle s.world.added + (if t.ready then 1 else 0)
    ≡ t.before + at_zero (s.world.counters t.co.wait_counter_p)

record Launched (s : System) : Type 0 where
  own_handles : Distinct (handles s.tasks)
  launched : (t : Live) → Memᴰ t s.tasks → LaunchedOnce s.store t

handles-append : (ts us : List Live) → handles (ts ++ us) ≡ handles ts ++ handles us
handles-append [] us = refl
handles-append (t ∷ ts) us = ap (λ l. t.co.handle ∷ l) (handles-append ts us)

dispatched-Launched :
    (N : ℕ) (t : Live) (s s' : Store) (ts : List Live)
    → Launched (system s ts)
    → IsCall N t ts
    → let now = started_now t.co t.args (queues s.nodes) in
      s'.world.counters t.co.wait_counter_p + now ≡ accesses t.args
      → t.ready ≡ (now == accesses t.args)
      → t.before ≡ times t.co.handle s.world.added
      → ((q : ℕ) → t.co.wait_counter_p ≢ q → s'.world.counters q ≡ s.world.counters q)
      → s'.world.added ≡ s.world.added
      → Launched (system s' (ts ++ (t ∷ [])))
dispatched-Launched N t s s' ts l call own ready before others pool = record {
  own_handles =
      rw (handles-append ts (t ∷ []))
        (Distinct-snoc t.co.handle (handles ts) l.own_handles call.fresh_handle);
  launched = λ u m. elim (append_cases ts m) [
    | inl old ↦
        let ne = wait_counters-ne u t.co.wait_counter_p ts call.fresh old in
        rw (pool, others u.co.wait_counter_p ne) (l.launched u old)
    | inr new ↦
        subst (LaunchedOnce s') (sym (eq_of_singleton new))
          (let same = ap (times t.co.handle) pool in ground (arith, own, ready, before, same))
  ];
}

Every-Mem {ℓ κ} : {A : Type ℓ} (P : A → Type κ) (x : A) (xs : List A) → Every P xs → Memᴰ x xs → P x
Every-Mem P x [] all m = elim m [ ]
Every-Mem P x (y ∷ xs) all (head e) = subst P (sym e) all.0
Every-Mem P x (y ∷ xs) all (tail m) = Every-Mem P x xs all.1 m

Mem-middle {ℓ} :
    {A : Type ℓ} (x y : A) (xs ys : List A) → Memᴰ x (xs ++ ys) → Memᴰ x (xs ++ (y ∷ ys))
Mem-middle x y [] ys m = tail m
Mem-middle x y (z ∷ xs) ys (head e) = head e
Mem-middle x y (z ∷ xs) ys (tail m) = tail (Mem-middle x y xs ys m)

module _ (N : ℕ) (s : Store) (t : Live) (earlier later : List Live)
    (i : Inv N (system s (earlier ++ (t ∷ later))))
    (apart : NoneShares earlier (resource_nodes t.args))
    (l : Launched (system s (earlier ++ (t ∷ later)))) where
  left-LaunchedOnce :
      (u : Live)
      → Memᴰ u (earlier ++ (t ∷ later))
      → times u.co.handle (notified_of s.nodes (resource_nodes t.args) s.world).added
          + (if u.ready then 1 else 0)
        ≡ u.before
          + at_zero
              ((notified_of s.nodes (resource_nodes t.args) s.world).counters u.co.wait_counter_p)
  left-LaunchedOnce u m =
      let tasks = earlier ++ (t ∷ later) in
      let nodes = resource_nodes t.args in
      let p = u.co.wait_counter_p in
      let mine = middle-IsLive N s t earlier later i apart in
      let live : IsLive N s u = Every-Mem (IsLive N s) u tasks i.live m in
      let alike = all_Alike u tasks i.own l.own_handles m in
      let agrees : (j : ℕ) → Every (Agrees p u.co.handle) (started (view (s.nodes j))) = λ j.
        Every-started (Agrees p u.co.handle) (running (s.nodes j)) (waiting (s.nodes j)) (
          subst (Every (Agrees p u.co.handle)) (sym (i.in_order j))
            (entries_at-Agrees u j tasks alike)) in
      let whole = left_behind-sum s.nodes p N nodes mine.below mine.distinct in
      let once =
        notified_of-launch s.nodes nodes s.world p u.co.handle agrees (omega (arith, live.small))
          (omega (arith, live.counted, whole)) in
      omega (arith, once, l.launched u m)

  left-Launched :
      (s' : Store)
      → deregister t.co.handle t.listed s ≡ ret s'
      → Launched (system s' (earlier ++ later))
  left-Launched s' run =
      let mine = middle-IsLive N s t earlier later i apart in
      let (nodes', run', _, _, _) =
        deregister-leaves t.co.handle (resource_nodes t.args) s.nodes s.world i.valid
          (leads-AllOldest N s t earlier later i apart) mine.distinct in
      let same =
        ret-injective (sym run' ∙ ap (λ k. deregister t.co.handle k s) (sym mine.nodes_of) ∙ run) in
      let all = subst Distinct (handles-append earlier (t ∷ later)) l.own_handles in
      let (_, _, d) = Distinct-middle (handles earlier) t.co.handle (handles later) all in
      record {
        own_handles = rw (handles-append earlier later) d;
        launched = λ u m.
            subst (λ x. LaunchedOnce x u) same
              (left-LaunchedOnce u (Mem-middle u t earlier later m));
      }

Step-Launched : {N : ℕ} {s t : System} → Step N s t → Inv N s → Launched s → Launched t
Step-Launched {N} (dispatches t s s' ts call space run before) i l =
    let e = dispatch-Enqueued N t s s' ts i.valid call space run in
    dispatched-Launched N t s s' ts l call e.own e.ready before e.others e.pool
Step-Launched {N} (barriers t rs next s s' ts call claims space run ready before) i l =
    let e = barrier-Enqueued N t rs next s s' ts i.valid call claims space run ready in
    dispatched-Launched N t s s' ts l call e.own e.ready before e.others e.pool
Step-Launched {N} (ends t s s' earlier later apart run) i l =
    left-Launched N s t earlier later i apart l s' run

Steps-Launched : {N : ℕ} {s t : System} → Steps N s t → Inv N s → Launched s → Launched t
Steps-Launched (no_step s) i l = l
Steps-Launched (one_step s t u one more) i l =
    Steps-Launched more (Step-Inv one i) (Step-Launched one i l)

-- In every state that a program reaches by the steps of `Step`, under the conditions that these
-- have, an unfinished task has been launched exactly once if its counter is 0, and not at all
-- otherwise: how often its handle went to the pool since its dispatch, and one more if the
-- dispatch found it ready, is 1 in the first case and 0 in the other.
pub reachable-LaunchedOnce :
    (N : ℕ) (w : World) (s : System) (t : Live)
    → Steps N (start w) s
    → Memᴰ t s.tasks
    → LaunchedOnce s.store t
reachable-LaunchedOnce N w s t r m =
    let none : Launched (start w) = record { own_handles = tt; launched = λ u k. elim k [ ] } in
    (Steps-Launched r (start-Inv N w) none).launched t m
