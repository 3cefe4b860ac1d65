-- ===== src/Start/Workers.antt =====
-- The constructor of `ThreadPool` in include/ThreadPool.hpp: the queues and the threads that it starts.
use native.Mathlib.Nat.{mod-eq_of_lt}
use rg.Prelude.{
  ℕ, zero, suc, ◌+◌, ◌%◌, ◌^◌, ◌<◌, ◌≤◌, ◌==◌, List, [], ◌∷◌, length, length-replicate, ◌≡◌, ◌∙◌,
  inr, refl, arith, false,
}
use rg.Prelude.Exec.{Exec, ret}
use rg.Pool.{Deque, Pool}
use rg.Start.{Hwloc, Process, Worker, less_int, core_index, start_workers, get_instance, new_pool}

-- `n` threads from the `i`-th on, each with a queue and a core of its own.
abbrev pub own_workers : ℕ → ℕ → List Worker
own_workers zero i = []
own_workers (suc n) i = record { index = i; core = i } ∷ own_workers n (i + 1)

core_index_lem : (i n : ℕ) → i < n → n < 2 ^ 31 → core_index i n ≡ ret i
unfolding core_index
core_index_lem i n a b =
    let positive : less_int n 0 ≡ false = ground arith in
    let nonzero : (n == 0) ≡ false = ground arith in
    let small : i % n ≡ i = mod-eq_of_lt a in rw (positive, nonzero, small)

start_workers-eq :
    (num_cores n i : ℕ)
    → i + n ≤ num_cores
    → i + n ≤ 2 ^ 16
    → num_cores < 2 ^ 31
    → start_workers num_cores n i ≡ ret (own_workers n i)
unfolding start_workers
start_workers-eq num_cores zero i a b c = refl
start_workers-eq num_cores (suc n) i a b c =
    let e : i % 2 ^ 16 ≡ i = omega arith in
    rw (
      e,
      core_index_lem i num_cores (omega arith) c,
      start_workers-eq num_cores n (i + 1) (omega arith) (omega arith) c,
    )

module _ {W D : Type 0} (hwloc : Hwloc W) (deque : Deque D) where
  -- The pool that the constructor leaves, by what `getInstance` gives.
  new_pool_some :
      (size topology : ℕ) (p : Process W) (pool : Pool D) (workers : Exec (List Worker))
      → (get_instance hwloc p).1 ≡ inr topology
      → (new_pool hwloc deque size p).1 ≡ inr (pool, workers)
      → (less_int (hwloc.num_core_objects topology (get_instance hwloc p).0.world) (size % 2 ^ 32)
          ≡ false)
        × (length pool.thread_queues ≡ size)
        × (workers
            ≡ start_workers (hwloc.num_core_objects topology (get_instance hwloc p).0.world) size 0)
  unfolding new_pool
  new_pool_some size topology p pool workers e h = ground (arith, length-replicate size deque.empty)

  -- A constructor that returns, on a machine whose cores hwloc counts as a non-negative `int`, for a
  -- size of at most 2^16, has made as many queues as it starts threads, no more than there are cores.
  -- The threads have the indices from 0 on in order, so each works on a queue of its own that exists,
  -- and each is pinned to a core of its own.
  pub new_pool-workers :
      (size topology : ℕ) (p : Process W) (pool : Pool D) (workers : Exec (List Worker))
      → (get_instance hwloc p).1 ≡ inr topology
      → hwloc.num_core_objects topology (get_instance hwloc p).0.world < 2 ^ 31
      → size ≤ 2 ^ 16
      → (new_pool hwloc deque size p).1 ≡ inr (pool, workers)
      → (length pool.thread_queues ≡ size)
        × (size ≤ hwloc.num_core_objects topology (get_instance hwloc p).0.world)
        × (workers ≡ ret (own_workers size 0))
  new_pool-workers size topology p pool workers e b c h =
      let n = hwloc.num_core_objects topology (get_instance hwloc p).0.world in
      let (enough, queues, started) = new_pool_some size topology p pool workers e h in
      let le : size ≤ n = ground arith in
      (queues, le, started ∙ start_workers-eq n size 0 (omega arith) (omega arith) b)
