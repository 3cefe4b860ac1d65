-- ===== src/Schedule/Ready.antt =====
-- include/dispatchTask.hpp and include/ResourceNode.hpp: when the counter of a task is 0.
use mathlib.Core.List.Memᴰ.{Memᴰ, head, tail}
use rg.Prelude.{
  ℕ, ◌==◌, true, false, List, [], ◌∷◌, ◌++◌, ◌≡◌, ◌↔◌, ◌⊎◌, refl, ap, sym, ◌∙◌, subst, arith,
  Bool-cases, inl, inr,
}
use rg.Access.{AccessMode}
use rg.Node.{TaskAccess, World}
use rg.Node.Queue.{parallel, admits, Blocked}
use rg.Node.Sound.{parallel_sym, admits_via}
use rg.Node.View.{view, running, waiting}
use rg.Dispatch.{Store, Argument, plain, access, Coroutine, task_access}
use rg.Dispatch.Register.{resource_nodes}
use rg.Deregister.Leaves.{Distinct, among, Apart-among}
use rg.Schedule.{Live, Steps, start, wait_counters, entries_of, entries_at}
use rg.Schedule.Lists.{count, count-append, sum_below-zero}
use rg.Schedule.Enqueued.{everyone}
use rg.Schedule.Inv.{
  Inv, IsLive, Every-split, Distinct-middle, wait_counters-append, entries_at-append,
  entries_at-count, entries_of-miss,
}
use rg.Schedule.Dispatched.{system}
use rg.Schedule.Kept.{reachable-Inv}
use rg.Schedule.Rivals.{ready-not_rival}
use rg.Schedule.Compatible.{unrivalled, unrivalled-intro, unrivalled-admits}

-- An entry with everything before it: it is among the first `rs`, or they end before it.
split_at :
    (rs ws front back : List TaskAccess) (x : TaskAccess)
    → rs ++ ws ≡ front ++ (x ∷ back)
    → ((rest : List TaskAccess) × (rest ++ ws ≡ back))
      ⊎ ((rest : List TaskAccess) × (front ≡ rs ++ rest) × (ws ≡ rest ++ (x ∷ back)))
split_at [] ws front back x e = inr (front, refl, e)
split_at (r ∷ rs) ws [] back x e = inl (rs, cc)
split_at (r ∷ rs) ws (f ∷ front) back x e =
    let behind : rs ++ ws ≡ front ++ (x ∷ back) = cc in
    let first : f ≡ r = cc in
    elim (split_at rs ws front back x behind) [
      | inl (rest, d) ↦ inl (rest, d)
      | inr (rest, d, d') ↦ inr (rest, ap (λ l. f ∷ l) d ∙ ap (λ y. y ∷ (rs ++ rest)) first, d')
    ]

admits_split :
    (xs ys : List TaskAccess) (t : TaskAccess)
    → admits (xs ++ ys) t ≡ true
    → (admits xs t ≡ true) × (admits ys t ≡ true)
admits_split [] ys t h = (refl, h)
admits_split (x ∷ xs) ys t h = let (a, b) = admits_split xs ys t (ground arith) in (ground arith, b)

-- What lets every entry before it run beside it does not wait.
unblocked :
    (rs rest back : List TaskAccess) (x : TaskAccess)
    → Blocked rs (rest ++ (x ∷ back))
    → admits (rs ++ rest) x ≡ true
    → ⊥
unblocked rs [] back x b h = let (a, _) = admits_split rs [] x h in cc
unblocked rs (w ∷ rest) back x b h =
    let (a, c) = admits_split rs (w ∷ rest) x h in
    let near : parallel w x ≡ true = parallel_sym w x ∙ ground arith in
    let same = admits_via rs w x near in cc

waits_not :
    (rs ws front back : List TaskAccess) (x : TaskAccess) (p : ℕ)
    → Blocked rs ws
    → rs ++ ws ≡ front ++ (x ∷ back)
    → admits front x ≡ true
    → count p back ≡ 0
    → count p ws ≡ 0
waits_not rs ws front back x p b e h none = elim (split_at rs ws front back x e) [
  | inl (rest, d) ↦ omega (arith, count-append p rest ws, ap (count p) d)
  | inr (rest, d, d') ↦
      absurd
        (unblocked rs rest back x (subst (Blocked rs) d' b) (subst (λ l. admits l x ≡ true) d h))
]

hit_access :
    (co : Coroutine) (j : ℕ) (args : List Argument)
    → Distinct (resource_nodes args)
    → among j (resource_nodes args) ≡ true
    → (mode : AccessMode) × (entries_of j co args ≡ task_access co mode ∷ [])
      × Memᴰ (access j mode) args
hit_access co j [] d h = cc
hit_access co j (plain ∷ args) d h =
    let (mode, e, m) = hit_access co j args d h in (mode, e, tail m)
hit_access co j (access node mode ∷ args) d h = elim (Bool-cases (node == j)) [
  | inl e ↦
      let same : node ≡ j = ground arith in
      let none =
        subst (λ x. among x (resource_nodes args) ≡ false) same
          (Apart-among node (resource_nodes args) d.0) in
      (mode, rw (e, entries_of-miss co j args none) refl, head (ap (λ k. access k mode) (sym same)))
  | inr e ↦ let (mode', f, m) = hit_access co j args d.1 (ground arith) in (mode', rw e f, tail m)
]

module _ (N : ℕ) (s : Store) (u : Live) (earlier later : List Live)
    (i : Inv N (system s (earlier ++ (u ∷ later)))) (free : unrivalled earlier u.args ≡ true) where
  abbrev p : ℕ
  p = u.co.wait_counter_p

  late-IsLive : IsLive N s u
  late-IsLive = (Every-split (IsLive N s) earlier (u ∷ later) i.live).1.0

  unrivalled-waits_nowhere : (j : ℕ) → count p (waiting (s.nodes j)) ≡ 0
  unrivalled-waits_nowhere j =
      let all = subst Distinct (wait_counters-append earlier (u ∷ later)) i.own in
      let (a, b, _) = Distinct-middle (wait_counters earlier) p (wait_counters later) all in
      let behind = entries_at-count p j later b in
      let whole : everyone (view (s.nodes j))
          ≡ entries_at j earlier ++ (entries_of j u.co u.args ++ entries_at j later) =
        i.in_order j ∙ entries_at-append j earlier (u ∷ later) in
      elim (Bool-cases (among j (resource_nodes u.args))) [
        | inl e ↦
            let (mode, only, asks) = hit_access u.co j u.args late-IsLive.distinct e in
            waits_not (running (s.nodes j)) (waiting (s.nodes j)) (entries_at j earlier)
              (entries_at j later) (task_access u.co mode) p (i.valid j).sound.blocked
              (whole ∙ ap (λ l. entries_at j earlier ++ (l ++ entries_at j later)) only)
              (unrivalled-admits u.co u.args j mode asks earlier free) behind
        | inr e ↦ omega (
          arith,
          ap (count p) (
              whole
              ∙ ap (λ l. entries_at j earlier ++ (l ++ entries_at j later))
                  (entries_of-miss u.co j u.args e)),
          count-append p (running (s.nodes j)) (waiting (s.nodes j)),
          count-append p (entries_at j earlier) (entries_at j later),
          entries_at-count p j earlier a,
          behind,
        )
      ]

  unrivalled-ready : s.world.counters p ≡ 0
  unrivalled-ready =
      late-IsLive.counted
      ∙ sum_below-zero N (λ j. count p (waiting (s.nodes j))) unrivalled-waits_nowhere

-- In every state that a program reaches by the steps of `Step`, under the conditions that these
-- have, the counter of an unfinished task is 0, so that it may run, exactly if none of its
-- accesses conflicts with an access to the same resource of an unfinished task that was
-- dispatched before it.
pub ready_iff :
    (N : ℕ) (w : World) (s : Store) (u : Live) (earlier later : List Live)
    → Steps N (start w) (system s (earlier ++ (u ∷ later)))
    → (s.world.counters u.co.wait_counter_p ≡ 0) ↔ (unrivalled earlier u.args ≡ true)
ready_iff N w s u earlier later r = (
  λ zero.
      unrivalled-intro earlier u.args
        (λ t node mode mode'. ready-not_rival N w s t u earlier later node mode mode' r zero),
  λ free.
      unrivalled-ready N s u earlier later (reachable-Inv N w (system s (earlier ++ (u ∷ later))) r)
        free,
)
