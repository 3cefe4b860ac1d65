-- ===== src/Deregister/Leaves.antt =====
-- include/Task.hpp: the end of a task that is the oldest running one wherever it is registered.
use rg.Prelude.{
  ℕ, ◌+◌, ◌<◌, ◌==◌, ◌||◌, if◌then◌else◌, Bool, true, false, List, [], ◌∷◌, ◌≡◌, ◌≢◌, ◌∙◌, refl, ap,
  subst, sym, arith, Bool-cases, inl, inr,
}
use rg.Prelude.Exec.{ret}
use rg.Node.{ResourceNode, World, num_tasks, remove_task}
use rg.Node.Queue.{Queue, finish, started, notified_all}
use rg.Node.View.{view, IsValid}
use rg.Node.Remove.{entry, remove_task_refines}
use rg.Dispatch.{Store, set_node}
use rg.Handle.{Handle, Memory, decrement_ref}
use rg.Deregister.{deregister, destroy_promise}

-- The task of the handle is the oldest that runs on the node, and the next one has not ended.
pub record IsOldest (handle : ℕ) (n : ResourceNode) : Type 0 where
  pub busy : n.first < n.first_not_ready
  pub room : n.last < num_tasks
  pub unmarked : n.first + 1 < n.first_not_ready → (entry n (n.first + 1)).remove_state ≡ false
  pub oldest : (entry n n.first).handle ≡ handle

abbrev pub AllOldest : ℕ → (ℕ → ResourceNode) → List ℕ → Type 0
AllOldest handle nodes [] = Unit
AllOldest handle nodes (i ∷ is) = IsOldest handle (nodes i) × AllOldest handle nodes is

-- No node of the list is `i`, and no node occurs twice.
abbrev pub Apart : ℕ → List ℕ → Type 0
Apart i [] = Unit
Apart i (j ∷ js) = (i ≢ j) × Apart i js

abbrev pub Distinct : List ℕ → Type 0
Distinct [] = Unit
Distinct (i ∷ is) = Apart i is × Distinct is

abbrev pub among : ℕ → List ℕ → Bool
among j [] = false
among j (i ∷ is) = (i == j) || among j is

-- The tasks that the nodes let start are notified, node by node.
abbrev pub notified_of : (ℕ → ResourceNode) → List ℕ → World → World
notified_of nodes [] w = w
notified_of nodes (i ∷ is) w = notified_of nodes is (notified_all w (started (view (nodes i))))

set_node-ne :
    (nodes : ℕ → ResourceNode) (i j : ℕ) (n : ResourceNode) → i ≢ j → set_node nodes i n j ≡ nodes j
set_node-ne nodes i j n ne = let other : (i == j) ≡ false = ground arith in rw other refl

set_node_self :
    (nodes : ℕ → ResourceNode) (i j : ℕ) (n : ResourceNode) → i ≡ j → set_node nodes i n j ≡ n
set_node_self nodes i j n e = let same : (i == j) ≡ true = ground arith in rw same refl

module _ (nodes : ℕ → ResourceNode) (i : ℕ) (n : ResourceNode) where
  set_node-AllOldest :
      (handle : ℕ) (is : List ℕ)
      → Apart i is
      → AllOldest handle nodes is
      → AllOldest handle (set_node nodes i n) is
  set_node-AllOldest handle [] apart all = tt
  set_node-AllOldest handle (j ∷ js) (ne, apart) (this, all) = (
    subst (IsOldest handle) (sym (set_node-ne nodes i j n ne)) this,
    set_node-AllOldest handle js apart all,
  )

  notified_of-set_node :
      (is : List ℕ) (w : World)
      → Apart i is
      → notified_of (set_node nodes i n) is w ≡ notified_of nodes is w
  notified_of-set_node [] w apart = refl
  notified_of-set_node (j ∷ js) w (ne, apart) =
      ap (λ k. notified_of (set_node nodes i n) js (notified_all w (started (view k))))
        (set_node-ne nodes i j n ne)
      ∙ notified_of-set_node js (notified_all w (started (view (nodes j)))) apart

  set_node-IsValid :
      ((j : ℕ) → IsValid (nodes j)) → IsValid n → (j : ℕ) → IsValid (set_node nodes i n j)
  set_node-IsValid valid v j = elim (Bool-cases (i == j)) [
    | inl e ↦ subst IsValid (sym (set_node_self nodes i j n (ground arith))) v
    | inr e ↦ subst IsValid (sym (set_node-ne nodes i j n (ground arith))) (valid j)
  ]

pub Apart-among : (i : ℕ) (is : List ℕ) → Apart i is → among i is ≡ false
Apart-among i [] apart = refl
Apart-among i (j ∷ js) (ne, apart) =
    let other : (j == i) ≡ false = ground arith in rw (other, Apart-among i js apart) refl

-- What the node `j` stands for once the task has left the nodes of the list.
abbrev pub left_behind : (ℕ → ResourceNode) → List ℕ → ℕ → Queue
left_behind nodes is j = if among j is then finish (view (nodes j)) else view (nodes j)

left_behind-set_node :
    (nodes : ℕ → ResourceNode) (i : ℕ) (n : ResourceNode) (is : List ℕ) (j : ℕ)
    → Apart i is
    → view n ≡ finish (view (nodes i))
    → left_behind (set_node nodes i n) is j ≡ left_behind nodes (i ∷ is) j
left_behind-set_node nodes i n is j apart e = elim (Bool-cases (i == j)) [
  | inl q ↦
      let same : i ≡ j = ground arith in
      let once : among j is ≡ false =
        subst (λ x. among x is ≡ false) same (Apart-among i is apart) in
      rw (q, once) (e ∙ ap (λ x. finish (view (nodes x))) same)
  | inr q ↦ rw q refl
]

last-set_node :
    (nodes : ℕ → ResourceNode) (i : ℕ) (n : ResourceNode) (j : ℕ)
    → n.last ≡ (nodes i).last
    → (set_node nodes i n j).last ≡ (nodes j).last
last-set_node nodes i n j e = elim (Bool-cases (i == j)) [
  | inl q ↦ let same : i ≡ j = ground arith in rw q (e ∙ ap (λ x. (nodes x).last) same)
  | inr q ↦ rw q refl
]

-- The removals return, one node after the other, and no node takes fewer tasks than before.
pub deregister-leaves :
    (handle : ℕ) (is : List ℕ) (nodes : ℕ → ResourceNode) (w : World)
    → ((j : ℕ) → IsValid (nodes j))
    → AllOldest handle nodes is
    → Distinct is
    → (nodes' : ℕ → ResourceNode) × (deregister handle is (record { nodes = nodes; world = w })
        ≡ ret (record { nodes = nodes'; world = notified_of nodes is w }))
      × ((j : ℕ) → IsValid (nodes' j))
      × ((j : ℕ) → (nodes' j).last ≡ (nodes j).last)
      × ((j : ℕ) → view (nodes' j) ≡ left_behind nodes is j)
unfolding deregister
deregister-leaves handle [] nodes w valid all apart = (nodes, refl, valid, λ j. refl, λ j. refl)
deregister-leaves handle (i ∷ is) nodes w valid (this, all) (apart, distinct) =
    let (n, removed, ended, kept, v) =
      remove_task_refines w (valid i) this.busy this.room this.unmarked in
    let e : remove_task (nodes i) w handle ≡ ret (n, notified_all w (started (view (nodes i)))) =
      ap (λ h. remove_task (nodes i) w h) (sym this.oldest) ∙ removed in
    let (nodes', rest, valid', lasts, views) =
      deregister-leaves handle is (set_node nodes i n) (notified_all w (started (view (nodes i))))
        (set_node-IsValid nodes i n valid v) (set_node-AllOldest nodes i n handle is apart all)
        distinct in
    (
      nodes',
      rw e (
          rest
          ∙ ap (λ x. ret (record { nodes = nodes'; world = x }))
              (notified_of-set_node nodes i n is (notified_all w (started (view (nodes i))))
                apart)),
      valid',
      λ j. lasts j ∙ last-set_node nodes i n j kept,
      λ j. views j ∙ left_behind-set_node nodes i n is j apart ended,
    )

-- The destruction of the promise of a task that is the oldest running one on each of its nodes, which
-- are different and valid and have room, with no task marked as removed behind it, returns. On each
-- of its nodes the task ends in the queue and the tasks that then may start are notified, node by
-- node in the order of registration; every other node stands for the same queue as before, all stay
-- valid, and the parent's counter goes down by one reference.
pub destroy_promise_lem :
    (handle : ℕ) (is : List ℕ) (parent : Handle) (s : Store) (m : Memory)
    → ((j : ℕ) → IsValid (s.nodes j))
    → AllOldest handle s.nodes is
    → Distinct is
    → (s' : Store) × (destroy_promise handle is parent s m ≡ ret (s', (decrement_ref parent m).1))
      × (s'.world ≡ notified_of s.nodes is s.world)
      × ((j : ℕ) → IsValid (s'.nodes j))
      × ((j : ℕ) → view (s'.nodes j) ≡ left_behind s.nodes is j)
unfolding destroy_promise
destroy_promise_lem handle is parent s m valid all distinct =
    let (nodes', e, valid', lasts, views) =
      deregister-leaves handle is s.nodes s.world valid all distinct in
    (
      record { nodes = nodes'; world = notified_of s.nodes is s.world },
      rw e refl,
      refl,
      valid',
      views,
    )
