-- ===== src/Start.antt =====
-- include/hwloc_ctx.hpp, include/init.hpp and the start of include/ThreadPool.hpp: the topology of
-- the machine, the constructor of the pool, and the pinning of its threads to cores.
pub mod Errors
pub mod Workers
mod Tests
use rg.Prelude.{
  ℕ, zero, suc, Bool, ◌+◌, ◌-◌, ◌%◌, ◌^◌, ◌==◌, ltb, not, if◌then◌else◌, List, [], ◌∷◌, replicate,
  Option, none, some, ◌≡◌, ◌≢◌, ◌⊎◌, inl, inr,
}
use rg.Prelude.Exec.{Exec, ret, undefined, ◌>>=◌}
use rg.Pool.{Deque, Pool}

-- What the program uses of hwloc: its functions on the state `W` of the machine, with pointers and
-- codes as numbers (0 is null, an `int` is taken modulo 2^32), and how many topologies and bitmaps
-- are allocated.
pub record Hwloc (W : Type 0) : Type 0 where
  pub topology_init : W → W × ℕ × ℕ  -- the code, and the topology that it writes
  pub topology_load : ℕ → W → W × ℕ
  pub topology_destroy : ℕ → W → W
  pub num_core_objects : ℕ → W → ℕ
  pub core_object : ℕ → ℕ → W → ℕ
  pub cpuset : ℕ → W → ℕ
  pub bitmap_dup : ℕ → W → W × ℕ
  pub bitmap_singlify : ℕ → W → W
  pub set_cpubind : ℕ → ℕ → W → W × ℕ
  pub bitmap_free : ℕ → W → W
  pub topologies : W → ℕ
  pub bitmaps : W → ℕ
  pub init_fails : (w : W) → (topology_init w).1 ≢ 0 → topologies (topology_init w).0 ≡ topologies w
  pub init_allocates :
      (w : W) → (topology_init w).1 ≡ 0 → topologies (topology_init w).0 ≡ topologies w + 1
  pub load_keeps : (t : ℕ) (w : W) → topologies (topology_load t w).0 ≡ topologies w
  pub destroy_frees : (t : ℕ) (w : W) → topologies (topology_destroy t w) ≡ topologies w - 1
  pub dup_allocates : (b : ℕ) (w : W) → bitmaps (bitmap_dup b w).0 ≡ bitmaps w + 1
  pub singlify_keeps : (b : ℕ) (w : W) → bitmaps (bitmap_singlify b w) ≡ bitmaps w
  pub cpubind_keeps : (t b : ℕ) (w : W) → bitmaps (set_cpubind t b w).0 ≡ bitmaps w
  pub free_frees : (b : ℕ) (w : W) → bitmaps (bitmap_free b w) ≡ bitmaps w - 1

-- The texts of `std::runtime_error`.
pub data Error : Type 0 where
  init_failed : Error  -- Failed to initialize hwloc topology
  load_failed : Error  -- Failed to load hwloc topology
  insufficient_cores : Error
  no_core : Error  -- Failed to get core for pinning.
  bind_failed : Error  -- Failed to bind thread to core.

-- The state of the machine, and the static variable of `getInstance` once it is initialised.
pub record Process (W : Type 0) : Type 0 where
  pub world : W
  pub instance_ : Option ℕ

-- A started thread: the argument of `worker`, and that of `pinThreadToCore`.
pub record Worker : Type 0 where
  pub index : ℕ
  pub core : ℕ

-- `a < b` of two values of type `int`.
abbrev pub less_int : ℕ → ℕ → Bool
less_int a b = ltb ((a + 2 ^ 31) % 2 ^ 32) ((b + 2 ^ 31) % 2 ^ 32)

-- `idx % num_cores`, whose sign is that of `idx`. A remainder by 0 is undefined.
unfoldable pub core_index : ℕ → ℕ → Exec ℕ
core_index idx num_cores =
    let size = if less_int num_cores 0 then 2 ^ 32 - num_cores else num_cores in
    if num_cores == 0 then undefined else ret (idx % size)

-- The threads that the constructor starts, from the `i`-th on, as a `uint16_t` counts.
unfoldable pub start_workers : ℕ → ℕ → ℕ → Exec (List Worker)
start_workers num_cores zero i = ret []
start_workers num_cores (suc n) i = do
  core ← core_index (i % 2 ^ 16) num_cores
  rest ← start_workers num_cores n (i + 1)
  ret (record { index = i % 2 ^ 16; core = core } ∷ rest)

module _ {W : Type 0} (hwloc : Hwloc W) where
  unfoldable pub initialize_topology : W → W × (Error ⊎ ℕ)
  initialize_topology w =
      let (w1, code, topology) = hwloc.topology_init w in
      let (w2, code') = hwloc.topology_load topology w1 in
      if not (code == 0)
      then (w1, inl init_failed)
      else if not (code' == 0)
      then (hwloc.topology_destroy topology w2, inl load_failed)
      else (w2, inr topology)

  -- A static variable whose initialisation throws is initialised again by the next call.
  unfoldable pub get_instance : Process W → Process W × (Error ⊎ ℕ)
  get_instance p = elim p.instance_ [
    | some topology ↦ (p, inr topology)
    | none ↦
        let (w, result) = initialize_topology p.world in
        elim result [
          | inl e ↦ (record p { world = w }, inl e)
          | inr topology ↦ (record { world = w; instance_ = some topology }, inr topology)
        ]
  ]

  -- `none` if it returns.
  unfoldable pub pin_thread_to_core : ℕ → ℕ → W → W × Option Error
  pin_thread_to_core topology index w =
      let core = hwloc.core_object topology index w in
      let (w1, cpuset) = hwloc.bitmap_dup (hwloc.cpuset core w) w in
      let w2 = hwloc.bitmap_singlify cpuset w1 in
      let (w3, code) = hwloc.set_cpubind topology cpuset w2 in
      if core == 0
      then (w, some no_core)
      else if code == 2 ^ 32 - 1
      then (hwloc.bitmap_free cpuset w3, some bind_failed)
      else (hwloc.bitmap_free cpuset w3, none)

  -- The constructor of `ThreadPool`, and that of `rg2`, with `init`, which call it.
  unfoldable pub new_pool :
      {D : Type 0} → Deque D → ℕ → Process W → Process W × (Error ⊎ (Pool D × Exec (List Worker)))
  new_pool {D} deque size p =
      let (p', instance') = get_instance p in
      elim instance' [
        | inl e ↦ (p', inl e)
        | inr topology ↦
            let num_cores = hwloc.num_core_objects topology p'.world in
            let pool : Pool D = record {
              thread_queues = replicate size deque.empty;
              master_queue = deque.empty;
              barrier_queue = [];
            } in
            if less_int num_cores (size % 2 ^ 32)
            then (p', inl insufficient_cores)
            else (p', inr (pool, start_workers num_cores size 0))
      ]
