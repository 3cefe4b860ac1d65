-- ===== src/Schedule/Oldest.antt =====
-- include/ResourceNode.hpp: the entries of a task with no earlier task on its resources.
use rg.Prelude.{
  ℕ, zero, suc, ◌+◌, ◌-◌, ◌<◌, ◌==◌, List, [], ◌∷◌, ◌++◌, ◌≡◌, refl, ap, sym, subst, ◌∙◌, arith,
  Bool-cases, ◌⊎◌, inl, inr, true, false, get_or,
}
use rg.Access.{AccessMode}
use rg.Node.{TaskAccess, ResourceNode, empty_access, num_tasks}
use rg.Node.Queue.{Blocked}
use rg.Node.View.{view, running, waiting, IsValid}
use rg.Node.Window.{window}
use rg.Dispatch.{Store, Argument, plain, access, Coroutine, task_access}
use rg.Dispatch.Register.{resource_nodes}
use rg.Deregister.Leaves.{IsOldest, AllOldest, among, Apart-among}
use rg.Schedule.{Live, Disjoint, NoneShares, entries_of, entries_at}
use rg.Schedule.Enqueued.{everyone}
use rg.Schedule.Inv.{
  Inv, IsLive, Every, Every-append, Every-split, entries_at-append, entries_of-miss, entries_of-hit,
}

-- Something runs as soon as the queue holds something.
pub runs_first :
    (rs ws : List TaskAccess) (x : TaskAccess) (rest : List TaskAccess)
    → Blocked rs ws
    → rs ++ ws ≡ x ∷ rest
    → (rs' : List TaskAccess) × (rs ≡ x ∷ rs') × (rs' ++ ws ≡ rest)
runs_first [] [] x rest b e = cc
runs_first [] (w ∷ ws) x rest b e = cc
runs_first (r ∷ rs) ws x rest b e = (rs, cc, cc)

abbrev pub Unmarked : TaskAccess → Type 0
Unmarked t = t.remove_state ≡ false

window_first :
    (ts : List TaskAccess) (i a : ℕ) (x : TaskAccess) (rs : List TaskAccess)
    → window ts i a ≡ x ∷ rs
    → Every Unmarked (window ts i a)
    → (0 < a)
      × (get_or ts i empty_access ≡ x)
      × ((a < 2) ⊎ ((get_or ts (i + 1) empty_access).remove_state ≡ false))
window_first ts i zero x rs e all = cc
window_first ts i (suc zero) x rs e all = (omega arith, cc, inl (omega arith))
window_first ts i (suc (suc a)) x rs e all = (omega arith, cc, inr all.1.0)

pub node-IsOldest :
    (n : ResourceNode) (x : TaskAccess) (rest : List TaskAccess)
    → IsValid n
    → n.last < num_tasks
    → everyone (view n) ≡ x ∷ rest
    → Every Unmarked (everyone (view n))
    → IsOldest x.handle n
      × ((rs : List TaskAccess) × (running n ≡ x ∷ rs) × (rs ++ waiting n ≡ rest))
node-IsOldest n x rest v room e all =
    let (rs, run, tail) = runs_first (running n) (waiting n) x rest v.sound.blocked e in
    let (ready, _) = Every-split Unmarked (running n) (waiting n) all in
    let (busy, oldest, next) =
      window_first n.tasks n.first (n.first_not_ready - n.first) x rs run ready in
    (
      record {
        busy = omega arith;
        room = room;
        unmarked = λ h. elim next [ inl few ↦ absurd (omega arith) | inr un ↦ un ];
        oldest = ap (λ t. t.handle) oldest;
      },
      (rs, run, tail),
    )

entries_of-Unmarked :
    (j : ℕ) (co : Coroutine) (args : List Argument) → Every Unmarked (entries_of j co args)
entries_of-Unmarked j co [] = tt
entries_of-Unmarked j co (plain ∷ args) = entries_of-Unmarked j co args
entries_of-Unmarked j co (access node mode ∷ args) = elim (Bool-cases (node == j)) [
  | inl e ↦ rw e (refl, entries_of-Unmarked j co args)
  | inr e ↦ rw e (entries_of-Unmarked j co args)
]

pub entries_at-Unmarked : (j : ℕ) (ts : List Live) → Every Unmarked (entries_at j ts)
entries_at-Unmarked j [] = tt
entries_at-Unmarked j (t ∷ ts) =
    Every-append Unmarked (entries_of j t.co t.args) (entries_at j ts)
      (entries_of-Unmarked j t.co t.args) (entries_at-Unmarked j ts)

Disjoint-miss : (is js : List ℕ) (j : ℕ) → Disjoint is js → among j js ≡ true → among j is ≡ false
Disjoint-miss [] js j d h = refl
Disjoint-miss (i ∷ is) js j d h =
    let ih = Disjoint-miss is js j d.1 h in
    elim (Bool-cases (i == j)) [
      | inl e ↦
          let same : i ≡ j = ground arith in
          let no = subst (λ x. among x js ≡ false) same (Apart-among i js d.0) in cc
      | inr e ↦ rw e ih
    ]

-- No earlier task has an entry at the node.
pub NoneShares-none :
    (ts : List Live) (js : List ℕ) (j : ℕ)
    → NoneShares ts js
    → among j js ≡ true
    → entries_at j ts ≡ []
NoneShares-none [] js j d h = refl
NoneShares-none (t ∷ ts) js j d h =
    rw
      (
        entries_of-miss t.co j t.args (Disjoint-miss (resource_nodes t.args) js j d.0 h),
        NoneShares-none ts js j d.1 h,
      )
      refl

AllOldest-intro :
    (handle : ℕ) (nodes : ℕ → ResourceNode) (is : List ℕ)
    → ((j : ℕ) → among j is ≡ true → IsOldest handle (nodes j))
    → AllOldest handle nodes is
AllOldest-intro handle nodes [] f = tt
AllOldest-intro handle nodes (i ∷ is) f =
    (f i (ground arith), AllOldest-intro handle nodes is (λ j h. f j (ground arith)))

-- The task, with its entry first, at a node that it has an access to.
pub record LeadsAt (s : Store) (t : Live) (later : List Live) (j : ℕ) : Type 0 where
  pub mode : AccessMode
  pub only : entries_of j t.co t.args ≡ task_access t.co mode ∷ []
  pub oldest : IsOldest t.co.handle (s.nodes j)
  pub behind : List TaskAccess
  pub runs : running (s.nodes j) ≡ task_access t.co mode ∷ behind
  pub others : behind ++ waiting (s.nodes j) ≡ entries_at j later

module _ (N : ℕ) (s : Store) (t : Live) (earlier later : List Live)
    (i : Inv N (record { store = s; tasks = earlier ++ (t ∷ later) }))
    (none : NoneShares earlier (resource_nodes t.args)) where
  pub middle-IsLive : IsLive N s t
  middle-IsLive = (Every-split (IsLive N s) earlier (t ∷ later) i.live).1.0

  pub leads : (j : ℕ) → among j (resource_nodes t.args) ≡ true → LeadsAt s t later j
  leads j h =
      let (mode, only) = entries_of-hit t.co j t.args middle-IsLive.distinct h in
      let first : entries_at j (earlier ++ (t ∷ later))
          ≡ task_access t.co mode ∷ entries_at j later =
        entries_at-append j earlier (t ∷ later)
        ∙ rw (NoneShares-none earlier (resource_nodes t.args) j none h, only) refl in
      let un =
        subst (Every Unmarked) (sym (i.in_order j))
          (entries_at-Unmarked j (earlier ++ (t ∷ later))) in
      let (old, (behind, runs, others)) =
        node-IsOldest (s.nodes j) (task_access t.co mode) (entries_at j later) (i.valid j)
          (i.room j) (i.in_order j ∙ first) un in
      record {
        mode = mode;
        only = only;
        oldest = old;
        behind = behind;
        runs = runs;
        others = others;
      }

  pub leads-AllOldest : AllOldest t.co.handle s.nodes (resource_nodes t.args)
  leads-AllOldest =
      AllOldest-intro t.co.handle s.nodes (resource_nodes t.args) (λ j h. (leads j h).oldest)
