-- ===== src/Awaiter/Enqueue.antt =====
-- include/barrier.hpp: a barrier queues up for its resources like a dispatched task that writes all
-- of them.
use rg.Prelude.{
  ℕ, suc, ◌+◌, ◌^◌, ◌<◌, ◌≡◌, ◌≢◌, ◌==◌, refl, ap, sym, subst, ◌∙◌, if◌then◌else◌, List, [], ◌∷◌,
  ◌++◌, length, none, some, arith, Bool-cases, inl, inr,
}
use rg.Prelude.Exec.{Exec, ret, ◌>>=◌, undefined, no_fuel, >>=_ret, >>=_assoc, >>=_cong}
use rg.Access.{write}
use rg.Node.{ResourceNode, World, add_task}
use rg.Node.Queue.{starts, enqueue, counted_down}
use rg.Node.View.{view}
use rg.Node.Add.{add_task_refines}
use rg.WaitCounter.{invalid_wait_state, add32, sub32}
use rg.Dispatch.{Store, Argument, access, Coroutine, task_access, set_counter, set_node}
use rg.Dispatch.Register.{
  accesses, set_queue, enqueue_all, started_now, started_now-le, queues, HaveRoom, queues-set_node,
  HaveRoom-set_node,
}
use rg.Awaiter.{
  Resources, resource, container, process_resource, process_container, process_all, await_suspend,
}

-- The nodes of all the resources, in order.
abbrev pub nodes_of : List Resources → List ℕ
nodes_of [] = []
nodes_of (resource node ∷ rs) = node ∷ nodes_of rs
nodes_of (container nodes ∷ rs) = nodes ++ nodes_of rs

-- A write access to each.
abbrev pub writes : List ℕ → List Argument
writes [] = []
writes (node ∷ nodes) = access node write ∷ writes nodes

pub accesses-writes : (nodes : List ℕ) → accesses (writes nodes) ≡ length nodes
accesses-writes [] = refl
accesses-writes (node ∷ nodes) = ap suc (accesses-writes nodes)

-- What registration leaves behind, for a counter at `invalid_wait_state + c`.
record Processed (co : Coroutine) (nodes : List ℕ) (s : Store) (c m : ℕ) : Type 0 where
  store : Store
  runs : process_container co nodes s ≡ ret (store, nodes)
  count :
      store.world.counters co.wait_counter_p + started_now co (writes nodes) (queues s.nodes)
      ≡ invalid_wait_state + c + length nodes
  others : (q : ℕ) → co.wait_counter_p ≢ q → store.world.counters q ≡ s.world.counters q
  pool : store.world.added ≡ s.world.added
  shown : queues store.nodes ≡ enqueue_all co (writes nodes) (queues s.nodes)
  valid : HaveRoom store.nodes m

-- The memory when a resource has been claimed.
abbrev claimed : Coroutine → World → World
claimed co w = set_counter w co.wait_counter_p (add32 (w.counters co.wait_counter_p) 1)

process_next :
    (co : Coroutine) (node : ℕ) (nodes : List ℕ) (s : Store) (n : ResourceNode) (w : World)
    (c c' m : ℕ)
    → add_task (s.nodes node) (claimed co s.world) (task_access co write) ≡ ret (n, w)
    → view n ≡ enqueue (view (s.nodes node)) (task_access co write)
    → (if starts (view (s.nodes node)) (task_access co write) then 1 else 0) + c' ≡ suc c
    → ((q : ℕ) → co.wait_counter_p ≢ q → w.counters q ≡ s.world.counters q)
    → w.added ≡ s.world.added
    → Processed co nodes (record { nodes = set_node s.nodes node n; world = w }) c' m
    → Processed co (node ∷ nodes) s c m
unfolding process_container process_resource
process_next co node nodes s n w c c' m run seen count others pool r =
    let same = queues-set_node s.nodes node n ∙ ap (set_queue (queues s.nodes) node) seen in
    record {
      store = r.store;
      runs = rw (run, r.runs) refl;
      count = let k = rw same at r.count in omega arith;
      others = λ q ne. r.others q ne ∙ others q ne;
      pool = r.pool ∙ pool;
      shown = r.shown ∙ ap (enqueue_all co (writes nodes)) same;
      valid = r.valid;
    }

process_lem :
    (co : Coroutine) (nodes : List ℕ) (s : Store) (c m : ℕ)
    → co.wait_counter_p ≢ 0
    → HaveRoom s.nodes (length nodes + m)
    → c + length nodes < 2 ^ 31
    → s.world.counters co.wait_counter_p ≡ invalid_wait_state + c
    → Processed co nodes s c m
unfolding process_container
process_lem co [] s c m h room small e = record {
  store = s;
  runs = refl;
  count = omega arith;
  others = λ q ne. refl;
  pool = refl;
  shown = refl;
  valid = let e : 0 + m ≡ m = omega arith in subst (HaveRoom s.nodes) e room;
}
process_lem co (node ∷ nodes) s c m h room small e =
    let t = task_access co write in
    let one : suc (length nodes) + m ≡ suc (length nodes + m) = omega arith in
    let more = subst (HaveRoom s.nodes) one room in
    let (v, fits) = room node in
    let (n, run, seen, longer, valid) = add_task_refines (claimed co s.world) t v (omega arith) h in
    let next = HaveRoom-set_node s.nodes node n (length nodes + m) more valid longer in
    elim (Bool-cases (starts (view (s.nodes node)) t)) [
      | inl now ↦
          let w = counted_down (claimed co s.world) t in
          let s' : Store = record { nodes = set_node s.nodes node n; world = w } in
          process_next co node nodes s n w c c m (rw now at run) seen (rw now (omega arith))
            (λ q ne. ground arith) refl
            (process_lem co nodes s' c m h next (omega arith) (ground arith))
      | inr later ↦
          let w = claimed co s.world in
          let s' : Store = record { nodes = set_node s.nodes node n; world = w } in
          process_next co node nodes s n w c (suc c) m (rw later at run) seen
            (rw later (omega arith)) (λ q ne. ground arith) refl
            (process_lem co nodes s' (suc c) m h next (omega arith) (ground arith))
    ]

-- The store in which registration begins.
abbrev begun : Coroutine → Store → Store
begun co s = record s { world = set_counter s.world co.wait_counter_p invalid_wait_state }

abbrev Awaited : Coroutine → List Resources → Store → ℕ → Type 0
Awaited co rs s m =
    let nodes = nodes_of rs in
    let now = started_now co (writes nodes) (queues s.nodes) in
    (s' : Store) × (await_suspend co rs s
      ≡ ret (s', nodes, if now == length nodes then some co.handle else none))
    × (s'.world.counters co.wait_counter_p + now ≡ length nodes)
    × ((q : ℕ) → co.wait_counter_p ≢ q → s'.world.counters q ≡ s.world.counters q)
    × (s'.world.added ≡ s.world.added)
    × (queues s'.nodes ≡ enqueue_all co (writes nodes) (queues s.nodes))
    × HaveRoom s'.nodes m

abbrev Listed : Type 0
Listed = Exec (Store × List ℕ)

abbrev listed_behind : List ℕ → Listed → Listed
listed_behind xs m = do (s, ys) ← m; ret (s, xs ++ ys)

-- The nodes of a first part, and then those of a second one.
abbrev in_turn : Listed → (Store → Listed) → Listed
in_turn m next = do (s, xs) ← m; listed_behind xs (next s)

in_turn-listed_behind :
    (x : ℕ) (m : Listed) (next : Store → Listed)
    → listed_behind (x ∷ []) (in_turn m next) ≡ in_turn (listed_behind (x ∷ []) m) next
in_turn-listed_behind x (ret (s, xs)) next =
    >>=_assoc (next s) (λ (t, ys). ret (t, xs ++ ys)) (λ (t, ys). ret (t, x ∷ ys))
in_turn-listed_behind x undefined next = refl
in_turn-listed_behind x no_fuel next = refl

-- A container is processed like its resources one by one.
process_container-append :
    (co : Coroutine) (xs ys : List ℕ) (s : Store)
    → process_container co (xs ++ ys) s
      ≡ in_turn (process_container co xs s) (process_container co ys)
unfolding process_container
process_container-append co [] ys s = sym (>>=_ret (process_container co ys s))
process_container-append co (x ∷ xs) ys s =
    let step = λ (t : Store).
      ap (listed_behind (x ∷ [])) (process_container-append co xs ys t)
      ∙ in_turn-listed_behind x (process_container co xs t) (process_container co ys) in
    >>=_cong (process_resource co x s)
      (λ t. listed_behind (x ∷ []) (process_container co (xs ++ ys) t))
      (λ t. in_turn (listed_behind (x ∷ []) (process_container co xs t)) (process_container co ys))
      step
    ∙ sym (
        >>=_assoc (process_resource co x s)
          (λ t. listed_behind (x ∷ []) (process_container co xs t))
          (λ (t, zs). listed_behind zs (process_container co ys t)))

process_all-eq :
    (co : Coroutine) (rs : List Resources) (s : Store)
    → process_all co rs s ≡ process_container co (nodes_of rs) s
unfolding process_all process_container
process_all-eq co [] s = refl
process_all-eq co (resource node ∷ rs) s =
    >>=_cong (process_resource co node s) (λ t. listed_behind (node ∷ []) (process_all co rs t))
      (λ t. listed_behind (node ∷ []) (process_container co (nodes_of rs) t))
      (λ t. ap (listed_behind (node ∷ [])) (process_all-eq co rs t))
process_all-eq co (container nodes ∷ rs) s =
    >>=_cong (process_container co nodes s) (λ (t, xs). listed_behind xs (process_all co rs t))
      (λ (t, xs). listed_behind xs (process_container co (nodes_of rs) t))
      (λ (t, xs). ap (listed_behind xs) (process_all-eq co rs t))
    ∙ sym (process_container-append co nodes (nodes_of rs) s)

await_of_Processed :
    (co : Coroutine) (rs : List Resources) (s : Store) (m : ℕ)
    → length (nodes_of rs) < 2 ^ 31
    → Processed co (nodes_of rs) (begun co s) 0 m
    → Awaited co rs s m
unfolding await_suspend
await_of_Processed co rs s m few r =
    let wc = r.store.world.counters co.wait_counter_p in
    let le = started_now-le co (writes (nodes_of rs)) (queues s.nodes) in
    let len = accesses-writes (nodes_of rs) in
    (
      record r.store {
        world = set_counter r.store.world co.wait_counter_p (sub32 wc invalid_wait_state);
      },
      rw (process_all-eq co rs (begun co s), r.runs) (ground (arith, r.count, le, len)),
      ground (arith, r.count, le, len),
      λ q ne. ground (arith, r.others q ne),
      r.pool,
      r.shown,
      r.valid,
    )

-- On valid nodes that have room for it and for `m` more, a barrier on fewer than 2^31 resources, given one by one or in
-- containers, is enqueued at each of them, in order, as a task that writes. Its task is resumed at
-- once exactly when every access starts at once; else its counter ends at the number of those that
-- do not. No other counter changes, nothing is added to the pool, and the nodes are valid with room
-- for `m`.
pub await_suspend_lem :
    (co : Coroutine) (rs : List Resources) (s : Store) (m : ℕ)
    → co.wait_counter_p ≢ 0
    → length (nodes_of rs) < 2 ^ 31
    → HaveRoom s.nodes (length (nodes_of rs) + m)
    → let nodes = nodes_of rs in
      let now = started_now co (writes nodes) (queues s.nodes) in
      (s' : Store) × (await_suspend co rs s
        ≡ ret (s', nodes, if now == length nodes then some co.handle else none))
      × (s'.world.counters co.wait_counter_p + now ≡ length nodes)
      × ((q : ℕ) → co.wait_counter_p ≢ q → s'.world.counters q ≡ s.world.counters q)
      × (s'.world.added ≡ s.world.added)
      × (queues s'.nodes ≡ enqueue_all co (writes nodes) (queues s.nodes))
      × HaveRoom s'.nodes m
await_suspend_lem co rs s m h few room =
    await_of_Processed co rs s m few
      (process_lem co (nodes_of rs) (begun co s) 0 m h room (omega arith) (ground arith))
