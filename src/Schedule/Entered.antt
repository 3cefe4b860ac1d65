-- ===== src/Schedule/Entered.antt =====
-- include/dispatchTask.hpp and include/barrier.hpp: what a dispatch and a barrier leave behind,
-- in the same words.
use rg.Prelude.{
  ℕ, ◌+◌, ◌≤◌, ◌==◌, if◌then◌else◌, Bool, true, false, List, [], ◌∷◌, length, Option, none, some,
  ◌≡◌, ◌≢◌, refl, ap, sym, subst, ◌∙◌, arith,
}
use rg.Prelude.Exec.{ret, ret-injective}
use rg.Node.{num_tasks}
use rg.Node.View.{IsValid}
use rg.Dispatch.{Store, dispatch_task}
use rg.Dispatch.Register.{
  accesses, resource_nodes, queues, started_now, enqueue_all, HaveRoom, dispatch_task_lem,
}
use rg.Awaiter.{Resources, await_suspend}
use rg.Awaiter.Enqueue.{nodes_of, writes, accesses-writes, await_suspend_lem}
use rg.Schedule.{Live, IsCall, is_some}

-- The space that a dispatch asks for.
abbrev pub HasSpace : Store → ℕ → Type 0
HasSpace s m = (j : ℕ) → (s.nodes j).last + m ≤ num_tasks

resource_nodes-writes : (nodes : List ℕ) → resource_nodes (writes nodes) ≡ nodes
resource_nodes-writes [] = refl
resource_nodes-writes (node ∷ nodes) = ap (λ l. node ∷ l) (resource_nodes-writes nodes)

-- What a barrier leaves behind, in the words of a dispatch.
pub record Enqueued (t : Live) (s s' : Store) : Type 0 where
  pub own :
      s'.world.counters t.co.wait_counter_p + started_now t.co t.args (queues s.nodes)
      ≡ accesses t.args
  pub others : (q : ℕ) → t.co.wait_counter_p ≢ q → s'.world.counters q ≡ s.world.counters q
  pub pool : s'.world.added ≡ s.world.added
  pub shown : queues s'.nodes ≡ enqueue_all t.co t.args (queues s.nodes)
  pub listed : t.listed ≡ resource_nodes t.args
  pub ready : t.ready ≡ (started_now t.co t.args (queues s.nodes) == accesses t.args)
  pub room : HaveRoom s'.nodes 1

is_some-if : (b : Bool) (h : ℕ) → is_some (if b then some h else none) ≡ b
is_some-if true h = refl
is_some-if false h = refl

pub dispatch-Enqueued :
    (N : ℕ) (t : Live) (s s' : Store) (ts : List Live)
    → ((j : ℕ) → IsValid (s.nodes j))
    → IsCall N t ts
    → HasSpace s (accesses t.args + 1)
    → dispatch_task t.co t.args s ≡ ret (s', t.listed, t.ready)
    → Enqueued t s s'
dispatch-Enqueued N t s s' ts valid call space run =
    let room : HaveRoom s.nodes (accesses t.args + 1) = λ j. (valid j, space j) in
    let (s'', listed, run', own, others, pool, shown, nodes_of, room') =
      dispatch_task_lem t.co t.args s 1 call.counter call.few room in
    let same = ret-injective (sym run' ∙ run) in
    subst (Enqueued t s) (ap (λ x. x.0) same) (record {
      own = own;
      others = others;
      pool = pool;
      shown = shown;
      listed = sym (ap (λ x. x.1) same) ∙ nodes_of;
      ready = sym (ap (λ x. x.2) same);
      room = room';
    })

pub barrier-Enqueued :
    (N : ℕ) (t : Live) (rs : List Resources) (next : Option ℕ) (s s' : Store) (ts : List Live)
    → ((j : ℕ) → IsValid (s.nodes j))
    → IsCall N t ts
    → t.args ≡ writes (nodes_of rs)
    → HasSpace s (accesses t.args + 1)
    → await_suspend t.co rs s ≡ ret (s', t.listed, next)
    → t.ready ≡ is_some next
    → Enqueued t s s'
barrier-Enqueued N t rs next s s' ts valid call claims space run ready =
    let nodes = nodes_of rs in
    let len : accesses t.args ≡ length nodes = ap accesses claims ∙ accesses-writes nodes in
    let room : HaveRoom s.nodes (length nodes + 1) = λ j. (valid j, omega (arith, space j, len)) in
    let (s'', run', own, others, pool, shown, room') =
      await_suspend_lem t.co rs s 1 call.counter (omega (arith, call.few, len)) room in
    let same = ret-injective (sym run' ∙ run) in
    let now = ap (λ a. started_now t.co a (queues s.nodes)) claims in
    subst (Enqueued t s) (ap (λ x. x.0) same) (record {
      own = omega (arith, own, now, len);
      others = others;
      pool = pool;
      shown = shown ∙ ap (λ a. enqueue_all t.co a (queues s.nodes)) (sym claims);
      listed =
          sym (ap (λ x. x.1) same) ∙ sym (ap resource_nodes claims ∙ resource_nodes-writes nodes);
      ready =
          ready
          ∙ ap is_some (sym (ap (λ x. x.2) same))
          ∙ is_some-if (started_now t.co (writes nodes) (queues s.nodes) == length nodes)
              t.co.handle
          ∙ rw (now, len) refl;
      room = room';
    })
