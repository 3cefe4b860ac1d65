-- ===== src/Schedule/Dispatched.antt =====
-- include/dispatchTask.hpp: nodes and counters before and after a dispatch.
use rg.Prelude.{ℕ, ◌+◌, List, [], ◌∷◌, ◌++◌, ◌≡◌, ◌≢◌, refl, ap, sym, ◌∙◌, arith}
use rg.Node.View.{view, running, waiting}
use rg.Dispatch.{Store}
use rg.Dispatch.Register.{accesses, resource_nodes, queues, enqueue_all, started_now, HaveRoom}
use rg.Deregister.Leaves.{Apart}
use rg.Schedule.{Live, System, IsCall, wait_counters, entries_of, entries_at}
use rg.Schedule.Lists.{count, count-append, waiting_sum, sum_below-zero, sum_below_cong}
use rg.Schedule.Enqueued.{
  everyone, append_nil, enqueue_all-everyone, enqueue_all-own, enqueue_all-others,
}
use rg.Schedule.Inv.{
  Inv, IsLive, Every, Every-append, wait_counters-append, entries_at-append, Distinct-snoc,
  entries_at-count,
}

abbrev pub system : Store → List Live → System
system s ts = record { store = s; tasks = ts }

-- A counter of no task that has not ended has no entry.
pub fresh-waiting_sum :
    (N : ℕ) (s : Store) (ts : List Live) (p : ℕ)
    → ((j : ℕ) → everyone (view (s.nodes j)) ≡ entries_at j ts)
    → Apart p (wait_counters ts)
    → waiting_sum N (queues s.nodes) p ≡ 0
fresh-waiting_sum N s ts p same apart =
    sum_below-zero N (λ j. count p (waiting (s.nodes j)))
      (λ j.
        let e = ap (λ l. count p l) (same j) in
        omega (
          arith,
          count-append p (running (s.nodes j)) (waiting (s.nodes j)),
          e,
          entries_at-count p j ts apart,
        ))

pub waiting_sum_cong :
    (N : ℕ) (s s' : Store) (p : ℕ)
    → ((j : ℕ) → view (s'.nodes j) ≡ view (s.nodes j))
    → waiting_sum N (queues s'.nodes) p ≡ waiting_sum N (queues s.nodes) p
waiting_sum_cong N s s' p e =
    sum_below_cong N (λ j. count p (waiting (s'.nodes j))) (λ j. count p (waiting (s.nodes j)))
      (λ j. ap (λ q. count p q.waiting) (e j))

-- What a dispatch leaves of the others.
dispatched-others :
    (N : ℕ) (t : Live) (s s' : Store) (ts : List Live)
    → IsCall N t ts
    → ((q : ℕ) → t.co.wait_counter_p ≢ q → s'.world.counters q ≡ s.world.counters q)
    → queues s'.nodes ≡ enqueue_all t.co t.args (queues s.nodes)
    → (us : List Live) → Apart t.co.wait_counter_p (wait_counters us)
    → Every (IsLive N s) us
    → Every (IsLive N s') us
dispatched-others N t s s' ts call others shown [] apart live = tt
dispatched-others N t s s' ts call others shown (u ∷ us) (ne, apart) (l, live) = (
  record {
    counter = l.counter;
    nodes_of = l.nodes_of;
    distinct = l.distinct;
    below = l.below;
    small = omega (arith, others u.co.wait_counter_p ne, l.small);
    counted =
        others u.co.wait_counter_p ne
        ∙ l.counted
        ∙ sym (enqueue_all-others t.co N t.args (queues s.nodes) u.co.wait_counter_p ne call.below)
        ∙ ap (λ qs. waiting_sum N qs u.co.wait_counter_p) (sym shown);
  },
  dispatched-others N t s s' ts call others shown us apart live,
)

pub dispatched-Inv :
    (N : ℕ) (t : Live) (s s' : Store) (ts : List Live)
    → Inv N (system s ts)
    → IsCall N t ts
    → let now = started_now t.co t.args (queues s.nodes) in
      s'.world.counters t.co.wait_counter_p + now ≡ accesses t.args
      → ((q : ℕ) → t.co.wait_counter_p ≢ q → s'.world.counters q ≡ s.world.counters q)
      → queues s'.nodes ≡ enqueue_all t.co t.args (queues s.nodes)
      → t.listed ≡ resource_nodes t.args
      → HaveRoom s'.nodes 1
      → Inv N (system s' (ts ++ (t ∷ [])))
dispatched-Inv N t s s' ts i call own others shown listed room =
    let p = t.co.wait_counter_p in
    let none = fresh-waiting_sum N s ts p i.in_order call.fresh in
    let mine = enqueue_all-own t.co N t.args (queues s.nodes) call.below in
    let after = ap (λ qs. waiting_sum N qs p) shown in
    record {
      valid = λ j. (room j).0;
      room = λ j. omega (arith, (room j).1);
      in_order = λ j.
          ap (λ qs. everyone (qs j)) shown
          ∙ enqueue_all-everyone t.co t.args (queues s.nodes) j
          ∙ rw
              (i.in_order j, entries_at-append j ts (t ∷ []), append_nil (entries_of j t.co t.args))
              refl;
      own =
          rw (wait_counters-append ts (t ∷ []))
            (Distinct-snoc p (wait_counters ts) i.own call.fresh);
      live =
          Every-append (IsLive N s') ts (t ∷ [])
            (dispatched-others N t s s' ts call others shown ts call.fresh i.live)
            (
              record {
                counter = call.counter;
                nodes_of = listed;
                distinct = call.distinct;
                below = call.below;
                small = omega (arith, own, call.few);
                counted = omega (arith, own, mine, none, after);
              },
              tt,
            );
    }
