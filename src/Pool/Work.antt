-- ===== src/Pool/Work.antt =====
-- include/ThreadPool.hpp: a turn of a worker's loop neither loses a handle nor makes one twice.
use rg.Prelude.{
  ℕ, zero, suc, ◌+◌, ◌<◌, ◌==◌, Bool-cases, inl, inr, List, [], ◌∷◌, length, Option, none, some,
  arith, ◌≡◌, refl, ap, ◌∙◌,
}
use rg.Prelude.Exec.{Exec, ret, ◌>>=◌}
use rg.Barrier.{Entry, Seen, is_ready}
use rg.Barrier.Release.{waiting, released, process_and_extract_lem}
use rg.Pool.{
  Deque, Pool, worker_thread, random_steal_attempts, at_queue, add_task, add_tasks, attempt,
  steal_loop, pop_own, steal_any, check_barrier, worker_turn,
}
use rg.Pool.Count.{
  copies, copies_in, copies-append, copies_at, copies_waiting, total, Keeps, pop-Keeps, steal-Keeps,
  at_queue-Keeps,
}

module _ {D : Type 0} (deque : Deque D) (x : ℕ) where
  -- A computation that returns a pool of as many queues, and what it took out of it.
  Turned : Pool D → Exec (Pool D × Option ℕ) → Type 0
  Turned pool m =
      (pool' : Pool D) × (o : Option ℕ) × (m ≡ ret (pool', o))
      × (length pool'.thread_queues ≡ length pool.thread_queues)
      × (total deque x pool ≡ total deque x pool' + copies_in x o)

  attempt-Turned :
      (index victim : ℕ) (pool : Pool D)
      → victim < length pool.thread_queues
      → Turned pool (attempt deque index victim pool)
  unfolding Turned attempt total Keeps
  attempt-Turned index victim pool lt = elim (Bool-cases (victim == index)) [
    | inl e ↦
        let (master, h) = deque.steal pool.master_queue in
        (
          record pool { master_queue = master },
          h,
          rw e refl,
          refl,
          omega (arith, steal-Keeps deque x pool.master_queue),
        )
    | inr e ↦
        let (queues, o, q, len, sum) =
          at_queue-Keeps deque x deque.steal (steal-Keeps deque x) victim pool.thread_queues lt in
        (record pool { thread_queues = queues }, o, rw (e, q) refl, len, omega arith)
  ]

  -- If the first place has nothing, the next one is tried.
  or_else-Turned :
      (pool : Pool D) (m : Exec (Pool D × Option ℕ)) (next : Pool D → Exec (Pool D × Option ℕ))
      → Turned pool m
      → ((p : Pool D) → length p.thread_queues ≡ length pool.thread_queues → Turned p (next p))
      → Turned pool (do (p, o) ← m; elim o [ none ↦ next p | some h ↦ ret (p, some h) ])
  unfolding Turned copies_in
  or_else-Turned pool m next (p, none, e, len, sum) rest =
      let (p', o, e', len', sum') = rest p len in (p', o, rw e e', len' ∙ len, omega arith)
  or_else-Turned pool m next (p, some h, e, len, sum) rest = (p, some h, rw e refl, len, sum)

  steal_loop-Turned :
      (n index : ℕ) (draws : ℕ → ℕ) (k : ℕ) (pool : Pool D)
      → ((i : ℕ) → draws i < length pool.thread_queues)
      → Turned pool (steal_loop deque n index draws k pool)
  unfolding Turned steal_loop copies_in
  steal_loop-Turned zero index draws k pool lt = (pool, none, refl, refl, omega arith)
  steal_loop-Turned (suc n) index draws k pool lt =
      or_else-Turned pool (attempt deque index (draws k) pool)
        (steal_loop deque n index draws (k + 1)) (attempt-Turned index (draws k) pool (lt k))
        (λ p len. steal_loop-Turned n index draws (k + 1) p (λ i. omega (arith, lt i)))

  -- What `process_and_extract` takes out of the barrier queue, it hands over.
  released-copies :
      (seen : ℕ → Seen) (k : ℕ) (queue : List Entry)
      → copies_waiting deque x queue
        ≡ copies_waiting deque x (waiting seen k queue) + copies x (released seen k queue)
  unfolding copies_waiting copies waiting released
  released-copies seen k [] = refl
  released-copies seen k (e ∷ queue) = elim (Bool-cases (is_ready (seen k) e)) [
    | inl b ↦ rw b (omega (arith, released-copies seen (k + 1) queue))
    | inr b ↦ rw b (omega (arith, released-copies seen (k + 1) queue))
  ]

  pub at_emplace :
      (h i : ℕ) (ds : List D)
      → i < length ds
      → (ds' : List D) × (at_queue (λ d. (deque.emplace h d, h)) i ds ≡ ret (ds', h))
        × (length ds' ≡ length ds)
        × (copies_at deque x ds' ≡ copies_at deque x ds + copies x (h ∷ []))
  unfolding at_queue copies_at
  at_emplace h i [] lt = absurd (omega arith)
  at_emplace h zero (d ∷ ds) lt = (
    deque.emplace h d ∷ ds,
    refl,
    refl,
    rw (deque.content-emplace h d) (omega (arith, copies-append x (deque.content d) (h ∷ []))),
  )
  at_emplace h (suc i) (d ∷ ds) lt =
      let (ds', e, len, sum) = at_emplace h i ds (omega arith) in
      (d ∷ ds', rw e refl, ap suc len, omega arith)

  add_tasks-total :
      (i : ℕ) (hs : List ℕ) (pool : Pool D)
      → i < length pool.thread_queues
      → (pool' : Pool D) × (add_tasks deque (worker_thread i) hs pool ≡ ret pool')
        × (length pool'.thread_queues ≡ length pool.thread_queues)
        × (total deque x pool' ≡ total deque x pool + copies x hs)
  unfolding add_tasks add_task total copies
  add_tasks-total i [] pool lt = (pool, refl, refl, omega arith)
  add_tasks-total i (h ∷ hs) pool lt =
      let (ds', e, len, sum) = at_emplace h i pool.thread_queues lt in
      let pool1 = record pool { thread_queues = ds' } in
      let (pool', e', len', sum') = add_tasks-total i hs pool1 (omega arith) in
      (pool', rw e e', len' ∙ len, omega arith)

  check_barrier-Turned :
      (index : ℕ) (seen : ℕ → Seen) (pool : Pool D)
      → index < length pool.thread_queues
      → Turned pool (check_barrier deque index seen pool)
  unfolding Turned check_barrier copies_in total
  check_barrier-Turned index seen pool lt =
      let queue = pool.barrier_queue in
      let pool1 = record pool { barrier_queue = waiting seen 0 queue } in
      let (pool', e, len, sum) = add_tasks-total index (released seen 0 queue) pool1 lt in
      (
        pool',
        none,
        rw (process_and_extract_lem seen queue, e) refl,
        len,
        omega (arith, released-copies seen 0 queue),
      )

  pop_own-Turned :
      (index : ℕ) (pool : Pool D)
      → index < length pool.thread_queues
      → Turned pool (pop_own deque index pool)
  unfolding Turned pop_own total
  pop_own-Turned index pool lt =
      let (queues, o, e, len, sum) =
        at_queue-Keeps deque x deque.pop (pop-Keeps deque x) index pool.thread_queues lt in
      (record pool { thread_queues = queues }, o, rw e refl, len, omega arith)

  -- For a worker of the pool, and draws that name workers of the pool, whatever other threads write
  -- for the barriers meanwhile: a turn of the worker's loop ends without undefined behaviour, keeps
  -- the number of queues, and of any handle the pool holds as many copies as before, less the one
  -- that the worker is about to resume.
  pub worker_turn_lem :
      (index : ℕ) (draws : ℕ → ℕ) (seen : ℕ → Seen) (pool : Pool D)
      → index < length pool.thread_queues
      → ((i : ℕ) → draws i < length pool.thread_queues)
      → (pool' : Pool D) × (o : Option ℕ) × (worker_turn deque index draws seen pool
          ≡ ret (pool', o))
        × (length pool'.thread_queues ≡ length pool.thread_queues)
        × (total deque x pool ≡ total deque x pool' + copies_in x o)
  unfolding worker_turn Turned steal_any
  worker_turn_lem index draws seen pool lt draws_lt =
      or_else-Turned pool (pop_own deque index pool)
        (λ p. do
          (p', o) ← steal_any deque index draws p
          elim o [ none ↦ check_barrier deque index seen p' | some h ↦ ret (p', some h) ])
        (pop_own-Turned index pool lt)
        (λ p len.
          or_else-Turned p (steal_any deque index draws p) (check_barrier deque index seen)
            (steal_loop-Turned random_steal_attempts index draws 0 p
              (λ i. omega (arith, draws_lt i)))
            (λ p' len'. check_barrier-Turned index seen p' (omega arith)))
