-- ===== src/Awaiter/Tests.antt =====
-- include/barrier.hpp: a barrier on one resource and on a container of two.
use rg.Prelude.{ℕ, ◌+◌, ◌≡◌, ◌≢◌, ◌==◌, if◌then◌else◌, some, none, List, [], ◌∷◌, arith}
use rg.Prelude.Exec.{ret}
use rg.Node.{init}
use rg.Dispatch.{Store}
use rg.Dispatch.Register.{started_now, queues, enqueue_all, HaveRoom}
use rg.Node.View.{init-IsValid}
use rg.Dispatch.Tests.{store, co}
use rg.Awaiter.{Resources, resource, container, await_suspend}
use rg.Awaiter.Enqueue.{writes, await_suspend_lem}

abbrev three : List Resources
three = resource 1 ∷ container (2 ∷ 3 ∷ []) ∷ []

store_room : HaveRoom store.nodes 5
unfolding init
store_room i = (init-IsValid i, omega arith)

await_suspend_lem_example :
    let nodes : List ℕ = 1 ∷ 2 ∷ 3 ∷ [] in
    let now = started_now co (writes nodes) (queues store.nodes) in
    (s : Store) × (await_suspend co three store ≡ ret (s, nodes, if now == 3 then some 5 else none))
    × (s.world.counters 6 + now ≡ 3)
    × ((q : ℕ) → 6 ≢ q → s.world.counters q ≡ 0)
    × (s.world.added ≡ [])
    × (queues s.nodes ≡ enqueue_all co (writes nodes) (queues store.nodes))
    × HaveRoom s.nodes 2
await_suspend_lem_example =
    await_suspend_lem co three store 2 (omega arith) (omega arith) store_room
