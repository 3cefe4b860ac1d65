-- ===== src/Dispatch/Register.antt =====
-- When a dispatched task is ready at once, and what its counter says otherwise.
use rg.Prelude.{
  ℕ, suc, ◌+◌, ◌-◌, ◌^◌, ◌<◌, ◌≤◌, ◌≡◌, ◌≢◌, ◌==◌, refl, ap, subst, ◌∙◌, Bool, true, false,
  if◌then◌else◌, List, [], ◌∷◌, arith, Bool-cases, inl, inr,
}
use mathlib.Core.Path.{fun_ext}
use rg.Prelude.Exec.{ret}
use rg.Access.{AccessMode}
use rg.Node.{ResourceNode, World, num_tasks, add_task}
use rg.Node.Queue.{Queue, starts, enqueue, counted_down}
use rg.Node.View.{view, IsValid}
use rg.Node.Add.{add_task_refines}
use rg.WaitCounter.{invalid_wait_state, add32, sub32}
use rg.Dispatch.{
  Store, Argument, plain, access, resource_counter, Coroutine, task_access, set_counter, set_node,
  register, dispatch_task,
}

abbrev pub accesses : List Argument → ℕ
accesses [] = 0
accesses (plain ∷ args) = accesses args
accesses (access node mode ∷ args) = suc (accesses args)

pub resource_counter-eq :
    (args : List Argument) → accesses args < 2 ^ 16 → resource_counter args ≡ accesses args
unfolding resource_counter
resource_counter-eq [] h = refl
resource_counter-eq (plain ∷ args) h = resource_counter-eq args h
resource_counter-eq (access node mode ∷ args) h =
    omega (arith, resource_counter-eq args (omega arith))

abbrev pub set_queue : (ℕ → Queue) → ℕ → Queue → ℕ → Queue
set_queue qs i q j = if i == j then q else qs j

-- The queues after the accesses were enqueued one after the other.
abbrev pub enqueue_all : Coroutine → List Argument → (ℕ → Queue) → ℕ → Queue
enqueue_all co [] qs = qs
enqueue_all co (plain ∷ args) qs = enqueue_all co args qs
enqueue_all co (access node mode ∷ args) qs =
    enqueue_all co args (set_queue qs node (enqueue (qs node) (task_access co mode)))

-- The nodes of the accesses, in the order of the arguments.
abbrev pub resource_nodes : List Argument → List ℕ
resource_nodes [] = []
resource_nodes (plain ∷ args) = resource_nodes args
resource_nodes (access node mode ∷ args) = node ∷ resource_nodes args

-- How many of the accesses their queues let start at once.
abbrev pub started_now : Coroutine → List Argument → (ℕ → Queue) → ℕ
started_now co [] qs = 0
started_now co (plain ∷ args) qs = started_now co args qs
started_now co (access node mode ∷ args) qs =
    (if starts (qs node) (task_access co mode) then 1 else 0)
    + started_now co args (set_queue qs node (enqueue (qs node) (task_access co mode)))

pub started_now-le :
    (co : Coroutine) (args : List Argument) (qs : ℕ → Queue)
    → started_now co args qs ≤ accesses args
started_now-le co [] qs = omega arith
started_now-le co (plain ∷ args) qs = started_now-le co args qs
started_now-le co (access node mode ∷ args) qs =
    ground
      (arith, started_now-le co args (set_queue qs node (enqueue (qs node) (task_access co mode))))

-- The queues that the nodes stand for.
abbrev pub queues : (ℕ → ResourceNode) → ℕ → Queue
queues nodes i = view (nodes i)

-- Every node is valid and takes `m` more tasks.
abbrev pub HaveRoom : (ℕ → ResourceNode) → ℕ → Type 0
HaveRoom nodes m = (i : ℕ) → IsValid (nodes i) × ((nodes i).last + m ≤ num_tasks)

abbrev counted_off : World → Coroutine → ℕ → World
counted_off w co k = set_counter w co.wait_counter_p (w.counters co.wait_counter_p - k)

-- What registration leaves behind, for a counter at `invalid_wait_state + c`.
record Registered (co : Coroutine) (args : List Argument) (s : Store) (c m : ℕ) : Type 0 where
  store : Store
  listed : List ℕ
  runs : register co args s ≡ ret (store, listed)
  count :
      store.world.counters co.wait_counter_p
      ≡ invalid_wait_state + c - started_now co args (queues s.nodes)
  others : (q : ℕ) → co.wait_counter_p ≢ q → store.world.counters q ≡ s.world.counters q
  pool : store.world.added ≡ s.world.added
  shown : queues store.nodes ≡ enqueue_all co args (queues s.nodes)
  valid : HaveRoom store.nodes m
  nodes_of : listed ≡ resource_nodes args

view-if :
    (b : Bool) (n m : ResourceNode) → view (if b then n else m) ≡ (if b then view n else view m)
view-if true n m = refl
view-if false n m = refl

pub queues-set_node :
    (nodes : ℕ → ResourceNode) (i : ℕ) (n : ResourceNode)
    → queues (set_node nodes i n) ≡ set_queue (queues nodes) i (view n)
queues-set_node nodes i n = fun_ext (λ j. view-if (i == j) n (nodes j))

pub HaveRoom-set_node :
    (nodes : ℕ → ResourceNode) (i : ℕ) (n : ResourceNode) (m : ℕ)
    → HaveRoom nodes (suc m)
    → IsValid n
    → n.last ≡ (nodes i).last + 1
    → HaveRoom (set_node nodes i n) m
HaveRoom-set_node nodes i n m room v longer j = elim (Bool-cases (i == j)) [
  | inl e ↦ rw e (v, omega (arith, (room i).1))
  | inr e ↦ rw e ((room j).0, omega (arith, (room j).1))
]

register_next :
    (co : Coroutine) (node : ℕ) (mode : AccessMode) (args : List Argument) (s : Store)
    (n : ResourceNode) (w : World) (c c' m : ℕ)
    → add_task (s.nodes node) s.world (task_access co mode) ≡ ret (n, w)
    → view n ≡ enqueue (view (s.nodes node)) (task_access co mode)
    → (if starts (view (s.nodes node)) (task_access co mode) then 1 else 0) + c' ≡ c
    → ((q : ℕ) → co.wait_counter_p ≢ q → w.counters q ≡ s.world.counters q)
    → w.added ≡ s.world.added
    → Registered co args (record { nodes = set_node s.nodes node n; world = w }) c' m
    → Registered co (access node mode ∷ args) s c m
unfolding register
register_next co node mode args s n w c c' m run seen count others pool r =
    let same = queues-set_node s.nodes node n ∙ ap (set_queue (queues s.nodes) node) seen in
    record {
      store = r.store;
      listed = node ∷ r.listed;
      runs = rw (run, r.runs);
      count = rw same at r.count ∙ omega arith;
      others = λ q ne. r.others q ne ∙ others q ne;
      pool = r.pool ∙ pool;
      shown = r.shown ∙ ap (enqueue_all co args) same;
      valid = r.valid;
      nodes_of = ap (λ l. node ∷ l) r.nodes_of;
    }

register_lem :
    (co : Coroutine) (args : List Argument) (s : Store) (c m : ℕ)
    → co.wait_counter_p ≢ 0
    → HaveRoom s.nodes (accesses args + m)
    → accesses args ≤ c
    → c < 2 ^ 16
    → s.world.counters co.wait_counter_p ≡ invalid_wait_state + c
    → Registered co args s c m
unfolding register
register_lem co [] s c m h room le small e = record {
  store = s;
  listed = [];
  runs = refl;
  count = omega arith;
  others = λ q ne. refl;
  pool = refl;
  shown = refl;
  valid = let e : 0 + m ≡ m = omega arith in subst (HaveRoom s.nodes) e room;
  nodes_of = refl;
}
register_lem co (plain ∷ args) s c m h room le small e =
    let r = register_lem co args s c m h room le small e in
    record {
      store = r.store;
      listed = r.listed;
      runs = r.runs;
      count = r.count;
      others = r.others;
      pool = r.pool;
      shown = r.shown;
      valid = r.valid;
      nodes_of = r.nodes_of;
    }
register_lem co (access node mode ∷ args) s c m h room le small e =
    let t = task_access co mode in
    let one : suc (accesses args) + m ≡ suc (accesses args + m) = omega arith in
    let more = subst (HaveRoom s.nodes) one room in
    let (v, fits) = room node in
    let (n, run, seen, longer, valid) = add_task_refines s.world t v (omega arith) h in
    elim (Bool-cases (starts (view (s.nodes node)) t)) [
      | inl now ↦
          let next = HaveRoom-set_node s.nodes node n (accesses args + m) more valid longer in
          let s' : Store = record {
            nodes = set_node s.nodes node n;
            world = counted_down s.world t;
          } in
          register_next co node mode args s n (counted_down s.world t) c (c - 1) m (rw now at run)
            seen (rw now (omega arith)) (λ q ne. ground arith) refl
            (register_lem co args s' (c - 1) m h next (omega arith) (omega arith) (ground arith))
      | inr later ↦
          let next = HaveRoom-set_node s.nodes node n (accesses args + m) more valid longer in
          let s' : Store = record { nodes = set_node s.nodes node n; world = s.world } in
          register_next co node mode args s n s.world c c m (rw later at run) seen
            (rw later (omega arith)) (λ q ne. refl) refl
            (register_lem co args s' c m h next (omega arith) small e)
    ]

-- The store in which registration begins, the promise and the arguments counted.
abbrev begun : Coroutine → List Argument → Store → Store
begun co args s = record s {
  world = set_counter s.world co.wait_counter_p (add32 invalid_wait_state (resource_counter args));
}

abbrev Dispatched : Coroutine → List Argument → Store → ℕ → Type 0
Dispatched co args s m =
    let now = started_now co args (queues s.nodes) in
    (s' : Store) × (listed : List ℕ) × (dispatch_task co args s
      ≡ ret (s', listed, now == accesses args))
    × (s'.world.counters co.wait_counter_p + now ≡ accesses args)
    × ((q : ℕ) → co.wait_counter_p ≢ q → s'.world.counters q ≡ s.world.counters q)
    × (s'.world.added ≡ s.world.added)
    × (queues s'.nodes ≡ enqueue_all co args (queues s.nodes))
    × (listed ≡ resource_nodes args)
    × HaveRoom s'.nodes m

dispatch_of_Registered :
    (co : Coroutine) (args : List Argument) (s : Store) (m : ℕ)
    → accesses args < 2 ^ 16
    → Registered co args (begun co args s) (accesses args) m
    → Dispatched co args s m
unfolding dispatch_task
dispatch_of_Registered co args s m few r =
    let wc = r.store.world.counters co.wait_counter_p in
    let le = started_now-le co args (queues s.nodes) in
    (
      record r.store {
        world = set_counter r.store.world co.wait_counter_p (sub32 wc invalid_wait_state);
      },
      r.listed,
      ground (arith, r.runs, r.count),
      ground (arith, r.count),
      λ q ne. ground (arith, r.others q ne),
      r.pool,
      r.shown,
      r.nodes_of,
      r.valid,
    )

begun_count :
    (co : Coroutine) (args : List Argument) (s : Store)
    → accesses args < 2 ^ 16
    → (begun co args s).world.counters co.wait_counter_p ≡ invalid_wait_state + accesses args
begun_count co args s few = ground (arith, resource_counter-eq args few)

-- A task that is dispatched with fewer than 2^16 accesses, on valid nodes that have room for them
-- and for `m` more, is enqueued at each resource in the order of the arguments. It is ready at once exactly when
-- every access starts at once, its counter ends at the number of those that do not, no other
-- counter changes and nothing is added to the pool. `resourceNodes` lists the nodes in the order of
-- the arguments, and the nodes are valid with room for `m`.
pub dispatch_task_lem :
    (co : Coroutine) (args : List Argument) (s : Store) (m : ℕ)
    → co.wait_counter_p ≢ 0
    → accesses args < 2 ^ 16
    → HaveRoom s.nodes (accesses args + m)
    → let now = started_now co args (queues s.nodes) in
      (s' : Store) × (listed : List ℕ) × (dispatch_task co args s
        ≡ ret (s', listed, now == accesses args))
      × (s'.world.counters co.wait_counter_p + now ≡ accesses args)
      × ((q : ℕ) → co.wait_counter_p ≢ q → s'.world.counters q ≡ s.world.counters q)
      × (s'.world.added ≡ s.world.added)
      × (queues s'.nodes ≡ enqueue_all co args (queues s.nodes))
      × (listed ≡ resource_nodes args)
      × HaveRoom s'.nodes m
dispatch_task_lem co args s m h few room = dispatch_of_Registered co args s m few (
    register_lem co args (begun co args s) (accesses args) m h room (omega arith) few
      (begun_count co args s few))
