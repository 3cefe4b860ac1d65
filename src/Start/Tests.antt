-- ===== src/Start/Tests.antt =====
-- A machine with four cores, on which every call of hwloc succeeds.
use rg.Prelude.{
  ℕ, ◌∷◌, [], ◌+◌, ◌-◌, ◌≤◌, ltb, if◌then◌else◌, List, length, ◌≡◌, ◌≢◌, ◌⊎◌, inl, inr, none, refl,
  arith,
}
use rg.Prelude.Exec.{Exec, ret}
use rg.Pool.{Pool}
use rg.Pool.Tests.{list_deque}
use rg.Start.{
  Hwloc, init_failed, load_failed, Process, Worker, start_workers, initialize_topology,
  get_instance, new_pool,
}
use rg.Start.Errors.{initialize_topology_lem}
use rg.Start.Workers.{own_workers, new_pool-workers}

record Machine : Type 0 where
  topology_count : ℕ
  bitmap_count : ℕ

abbrev machine_hwloc : Hwloc Machine
machine_hwloc = record {
  topology_init = λ w. (record w { topology_count = w.topology_count + 1 }, 0, 5);
  topology_load = λ t w. (w, 0);
  topology_destroy = λ t w. record w { topology_count = w.topology_count - 1 };
  num_core_objects = λ t w. 4;
  core_object = λ t i w. if ltb i 4 then i + 1 else 0;
  cpuset = λ core w. core;
  bitmap_dup = λ b w. (record w { bitmap_count = w.bitmap_count + 1 }, 9);
  bitmap_singlify = λ b w. w;
  set_cpubind = λ t b w. (w, 0);
  bitmap_free = λ b w. record w { bitmap_count = w.bitmap_count - 1 };
  topologies = λ w. w.topology_count;
  bitmaps = λ w. w.bitmap_count;
  init_fails = λ w h. absurd (h refl);
  init_allocates = λ w h. refl;
  load_keeps = λ t w. refl;
  destroy_frees = λ t w. refl;
  dup_allocates = λ b w. refl;
  singlify_keeps = λ b w. refl;
  cpubind_keeps = λ t b w. refl;
  free_frees = λ b w. refl;
}

abbrev idle_machine : Machine
idle_machine = record { topology_count = 0; bitmap_count = 0 }

abbrev process : Process Machine
process = record { world = idle_machine; instance_ = none }

initialize_topology_lem_example :
    let (w', result) = initialize_topology machine_hwloc idle_machine in
    ((◌≢◌ {A = ℕ} 0 0) × (result ≡ inl init_failed) × (w'.topology_count ≡ 0))
    ⊎ (((◌≡◌ {A = ℕ} 0 0)
          × (◌≢◌ {A = ℕ} 0 0)
          × (result ≡ inl load_failed)
          × (w'.topology_count ≡ 0))
        ⊎ ((◌≡◌ {A = ℕ} 0 0) × (◌≡◌ {A = ℕ} 0 0) × (result ≡ inr 5) × (w'.topology_count ≡ 1)))
initialize_topology_lem_example = initialize_topology_lem machine_hwloc idle_machine

abbrev started : (Pool (List ℕ)) × Exec (List Worker)
started = (
  record {
    thread_queues = list_deque.empty ∷ list_deque.empty ∷ [];
    master_queue = list_deque.empty;
    barrier_queue = [];
  },
  start_workers 4 2 0,
)

new_pool-workers_example :
    (length started.0.thread_queues ≡ 2) × (2 ≤ 4) × (started.1 ≡ ret (own_workers 2 0))
unfolding new_pool get_instance initialize_topology
new_pool-workers_example =
    new_pool-workers machine_hwloc list_deque 2 5 process started.0 started.1 refl (omega arith)
      (omega arith) refl
