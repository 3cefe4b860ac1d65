-- ===== src/Start/Errors.antt =====
-- include/hwloc_ctx.hpp and `pinThreadToCore` of include/ThreadPool.hpp: what the error paths leave.
use rg.Prelude.{ℕ, ◌+◌, ◌-◌, ◌^◌, ◌≡◌, ◌≢◌, ◌⊎◌, inl, inr, none, some, arith}
use rg.Start.{
  Hwloc, init_failed, load_failed, no_core, bind_failed, initialize_topology, pin_thread_to_core,
}

module _ {W : Type 0} (hwloc : Hwloc W) where
  -- An initialisation of the topology ends in one of three ways: it throws that the initialisation
  -- failed, or that the loading failed, and in both cases leaves as many topologies allocated as
  -- before; or it returns the topology that hwloc wrote, with one more allocated.
  pub initialize_topology_lem :
      (w : W)
      → let (w', result) = initialize_topology hwloc w in
        let (w1, code, topology) = hwloc.topology_init w in
        let code' : ℕ = (hwloc.topology_load topology w1).1 in
        ((code ≢ 0) × (result ≡ inl init_failed) × (hwloc.topologies w' ≡ hwloc.topologies w))
        ⊎ (((code ≡ 0)
              × (code' ≢ 0)
              × (result ≡ inl load_failed)
              × (hwloc.topologies w' ≡ hwloc.topologies w))
            ⊎ ((code ≡ 0)
                × (code' ≡ 0)
                × (result ≡ inr topology)
                × (hwloc.topologies w' ≡ hwloc.topologies w + 1)))
  unfolding initialize_topology
  initialize_topology_lem w =
      let (w1, code, topology) = hwloc.topology_init w in
      let (w2, code') = hwloc.topology_load topology w1 in
      ground (
        arith,
        hwloc.init_fails w,
        hwloc.init_allocates w,
        hwloc.load_keeps topology w1,
        hwloc.destroy_frees topology w2,
      )

  -- Pinning a thread ends in one of three ways: it throws that there is no such core, it throws that
  -- the thread could not be bound, which hwloc says by -1, or it returns. On each way as many bitmaps
  -- are allocated afterwards as before.
  pub pin_thread_to_core_lem :
      (topology index : ℕ) (w : W)
      → let (w', thrown) = pin_thread_to_core hwloc topology index w in
        let core : ℕ = hwloc.core_object topology index w in
        let (w1, cpuset) = hwloc.bitmap_dup (hwloc.cpuset core w) w in
        let code : ℕ = (hwloc.set_cpubind topology cpuset (hwloc.bitmap_singlify cpuset w1)).1 in
        (hwloc.bitmaps w' ≡ hwloc.bitmaps w)
        × (((core ≡ 0) × (thrown ≡ some no_core))
            ⊎ (((core ≢ 0) × (code ≡ 2 ^ 32 - 1) × (thrown ≡ some bind_failed))
                ⊎ ((core ≢ 0) × (code ≢ 2 ^ 32 - 1) × (thrown ≡ none))))
  unfolding pin_thread_to_core
  pin_thread_to_core_lem topology index w =
      let core = hwloc.core_object topology index w in
      let (w1, cpuset) = hwloc.bitmap_dup (hwloc.cpuset core w) w in
      let w2 = hwloc.bitmap_singlify cpuset w1 in
      let (w3, code) = hwloc.set_cpubind topology cpuset w2 in
      ground (
        arith,
        hwloc.dup_allocates (hwloc.cpuset core w) w,
        hwloc.singlify_keeps cpuset w1,
        hwloc.cpubind_keeps topology cpuset w2,
        hwloc.free_frees cpuset w3,
      )
