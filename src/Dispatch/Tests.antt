-- ===== src/Dispatch/Tests.antt =====
-- A task that reads one resource and writes another one, both free.
use rg.Prelude.{ℕ, ◌+◌, ◌≡◌, ◌≢◌, ◌==◌, List, [], ◌∷◌, arith}
use rg.Prelude.Exec.{ret}
use rg.Access.{read, write}
use rg.Node.{init}
use rg.Node.View.{init-IsValid}
use rg.Dispatch.{Store, Argument, plain, access, Coroutine, dispatch_task}
use rg.Dispatch.Register.{started_now, queues, enqueue_all, HaveRoom, dispatch_task_lem}

abbrev pub store : Store
store = record { nodes = λ i. init i; world = record { counters = λ _. 0; added = [] } }

abbrev pub co : Coroutine
co = record { handle = 5; wait_counter_p = 6 }

abbrev args : List Argument
args = access 1 read ∷ plain ∷ access 2 write ∷ []

store_room : HaveRoom store.nodes 5
unfolding init
store_room i = (init-IsValid i, omega arith)

dispatch_task_lem_example :
    let now = started_now co args (queues store.nodes) in
    (s : Store) × (listed : List ℕ) × (dispatch_task co args store ≡ ret (s, listed, now == 2))
    × (s.world.counters 6 + now ≡ 2)
    × ((q : ℕ) → 6 ≢ q → s.world.counters q ≡ 0)
    × (s.world.added ≡ [])
    × (queues s.nodes ≡ enqueue_all co args (queues store.nodes))
    × (listed ≡ 1 ∷ 2 ∷ [])
    × HaveRoom s.nodes 3
dispatch_task_lem_example = dispatch_task_lem co args store 3 (omega arith) (omega arith) store_room
