-- ===== src/Pool.antt =====
-- include/ThreadPool.hpp: the queues of the pool, `addTask`, and one turn of a worker's loop.
pub mod Count
pub mod Work
pub mod Newest
pub mod Run
pub mod Tests
use rg.Prelude.{
  ℕ, zero, suc, ◌+◌, ◌==◌, ltb, if◌then◌else◌, List, [], ◌∷◌, ◌++◌, replicate, Option, none, some,
  ◌≡◌,
}
use rg.Prelude.Exec.{Exec, ret, undefined, ◌>>=◌}
use rg.Barrier.{Entry, Seen, process_and_extract}

-- What the pool uses of `riften::Deque` (include/dequeue.hpp, which is a copy of another library):
-- its operations, and what they do to the handles that it holds, oldest first. The owner works at
-- the new end and thieves at the old one. A steal may fail although the queue holds something.
pub record Deque (D : Type 0) : Type 0 where
  pub empty : D
  pub emplace : ℕ → D → D
  pub pop : D → D × Option ℕ
  pub steal : D → D × Option ℕ
  pub content : D → List ℕ
  pub content-empty : content empty ≡ []
  pub content-emplace : (h : ℕ) (d : D) → content (emplace h d) ≡ content d ++ (h ∷ [])
  pub pop_none : (d : D) → (pop d).1 ≡ none → (content d ≡ []) × (content (pop d).0 ≡ [])
  pub pop_some : (d : D) (h : ℕ) → (pop d).1 ≡ some h → content d ≡ content (pop d).0 ++ (h ∷ [])
  pub steal_none : (d : D) → (steal d).1 ≡ none → content (steal d).0 ≡ content d
  pub steal_some : (d : D) (h : ℕ) → (steal d).1 ≡ some h → content d ≡ h ∷ content (steal d).0

pub record Pool (D : Type 0) : Type 0 where
  pub thread_queues : List D
  pub master_queue : D
  pub barrier_queue : List Entry

-- Whose `thread_queue_p` is meant.
pub data Thread : Type 0 where
  main_thread : Thread
  worker_thread : ℕ → Thread

abbrev pub random_steal_attempts : ℕ
random_steal_attempts = 64

-- `thread_queues[i]` is put through an operation. An index out of range is undefined behaviour.
unfoldable pub at_queue {ℓ} :
    {D : Type 0} {A : Type ℓ} → (D → D × A) → ℕ → List D → Exec (List D × A)
at_queue f i [] = undefined
at_queue f zero (d ∷ ds) = let (d', a) = f d in ret (d' ∷ ds, a)
at_queue f (suc i) (d ∷ ds) = do (ds', a) ← at_queue f i ds; ret (d ∷ ds', a)

module _ {D : Type 0} (deque : Deque D) where
  -- `addTask`, called on a thread
  unfoldable pub add_task : Thread → ℕ → Pool D → Exec (Pool D)
  unfolding at_queue
  add_task main_thread h pool =
      ret (record pool { master_queue = deque.emplace h pool.master_queue })
  add_task (worker_thread i) h pool = do
    (queues, _) ← at_queue (λ d. (deque.emplace h d, h)) i pool.thread_queues
    ret (record pool { thread_queues = queues })

  -- `addTask` for each handle that `process_and_extract` found.
  unfoldable pub add_tasks : Thread → List ℕ → Pool D → Exec (Pool D)
  add_tasks t [] pool = ret pool
  add_tasks t (h ∷ hs) pool = do pool' ← add_task t h pool; add_tasks t hs pool'

  -- One attempt of worker `index` to steal, from the worker that was drawn, or from the main thread
  -- if it drew itself.
  unfoldable pub attempt : ℕ → ℕ → Pool D → Exec (Pool D × Option ℕ)
  attempt index victim pool =
      let (master, h) = deque.steal pool.master_queue in
      let other = (do
        (queues, x) ← at_queue deque.steal victim pool.thread_queues
        ret (record pool { thread_queues = queues }, x)) in
      if victim == index then ret (record pool { master_queue = master }, h) else other

  -- The loop of attempts. `draws` are the results of `dist(rng)`.
  unfoldable pub steal_loop : ℕ → ℕ → (ℕ → ℕ) → ℕ → Pool D → Exec (Pool D × Option ℕ)
  steal_loop zero index draws k pool = ret (pool, none)
  steal_loop (suc n) index draws k pool = do
    (pool', h) ← attempt index (draws k) pool
    let again = steal_loop n index draws (k + 1) pool'
    elim h [ none ↦ again | some x ↦ ret (pool', some x) ]

  -- The three places where a turn of a worker looks for work, in their order.
  unfoldable pub pop_own : ℕ → Pool D → Exec (Pool D × Option ℕ)
  pop_own index pool = do
    (queues, h) ← at_queue deque.pop index pool.thread_queues
    ret (record pool { thread_queues = queues }, h)

  unfoldable pub steal_any : ℕ → (ℕ → ℕ) → Pool D → Exec (Pool D × Option ℕ)
  steal_any index draws pool = steal_loop random_steal_attempts index draws 0 pool

  unfoldable pub check_barrier : ℕ → (ℕ → Seen) → Pool D → Exec (Pool D × Option ℕ)
  check_barrier index seen pool = do
    (waiting, handles) ← process_and_extract seen pool.barrier_queue
    pool' ← add_tasks (worker_thread index) handles (record pool { barrier_queue = waiting })
    ret (pool', none)

  -- One turn of the loop of `worker`, up to the handle that it resumes, if there is one.
  unfoldable pub worker_turn : ℕ → (ℕ → ℕ) → (ℕ → Seen) → Pool D → Exec (Pool D × Option ℕ)
  worker_turn index draws seen pool = do
    (pool1, own) ← pop_own index pool
    elim own [
      | none ↦ do
        (pool2, stolen) ← steal_any index draws pool1
        elim stolen [ none ↦ check_barrier index seen pool2 | some h ↦ ret (pool2, some h) ]
      | some h ↦ ret (pool1, some h)
    ]
