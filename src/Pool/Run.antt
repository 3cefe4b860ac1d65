-- ===== src/Pool/Run.antt =====
-- include/ThreadPool.hpp: the life of a pool: its workers' loops with their stop tokens, `finalize`,
-- and the destructor. The threads interleave; a turn of a worker is one step.
pub mod Conserved
pub mod Orderly
pub mod Stopped
pub mod Destroyed
use rg.Prelude.{
  ℕ, suc, ◌+◌, ◌<◌, Bool, true, false, if◌then◌else◌, List, [], ◌∷◌, ◌++◌, length, get_elem?, set,
  replicate, Option, none, some, ◌≡◌, ◌≢◌,
}
use rg.Prelude.Exec.{ret}
use rg.Barrier.{Entry, Seen, emplace_back}
use rg.Pool.{Deque, Pool, Thread, add_task, worker_turn}

-- Where a worker is in `while(!stoken.stop_requested())`: before the test, in the body, behind the loop.
pub data Phase : Type 0 where
  testing : Phase
  working : Phase
  finished : Phase

-- An element of `threads`: whether its `std::jthread` was asked to stop, and where its function is.
pub record Worker : Type 0 where
  pub stop_requested : Bool
  pub phase : Phase

-- The pool is in use, its destructor has joined the first `k` threads, or the destructor is over.
pub data Lifetime : Type 0 where
  in_use : Lifetime
  clearing : ℕ → Lifetime
  destroyed : Lifetime

-- The pool, whether `stop_source` was asked to stop, the threads, what was passed to `addTask` or put
-- into the barrier queue, and what workers have resumed, oldest first.
pub record Running (D : Type 0) : Type 0 where
  pub pool : Pool D
  pub source_stopped : Bool
  pub workers : List Worker
  pub lifetime : Lifetime
  pub added : List ℕ
  pub resumed : List ℕ

abbrev pub as_list : Option ℕ → List ℕ
as_list none = []
as_list (some h) = h ∷ []

abbrev pub put_worker : {D : Type 0} → ℕ → Worker → Running D → Running D
put_worker i w s = record s { workers = set s.workers i w }

module _ {D : Type 0} (deque : Deque D) where
  -- After the constructor, with a pool of `n` threads.
  unfoldable pub new_running : ℕ → Running D
  new_running n = record {
    pool = record {
      thread_queues = replicate n deque.empty;
      master_queue = deque.empty;
      barrier_queue = [];
    };
    source_stopped = false;
    workers = replicate n (record { stop_requested = false; phase = testing });
    lifetime = in_use;
    added = [];
    resumed = [];
  }

  pub data Step : Running D → Running D → Type 0 where
    -- `addTask`
    adds :
        (s : Running D) (t : Thread) (h : ℕ) (pool' : Pool D)
        → s.lifetime ≢ destroyed
        → add_task deque t h s.pool ≡ ret pool'
        → Step s (record s { pool = pool'; added = s.added ++ (h ∷ []) })
    -- `barrierTask`: `emplace_back` on the barrier queue
    enters :
        (s : Running D) (e : Entry)
        → s.lifetime ≢ destroyed
        → Step s (record s {
          pool = record s.pool { barrier_queue = emplace_back s.pool.barrier_queue e };
          added = s.added ++ (e.handle ∷ []);
        })
    -- the test of the loop
    tests :
        (s : Running D) (i : ℕ) (w : Worker)
        → get_elem? s.workers i ≡ some w
        → w.phase ≡ testing
        → Step s
            (put_worker i (record w { phase = if w.stop_requested then finished else working }) s)
    -- the body of the loop, up to the handle that it resumes
    turns :
        (s : Running D) (i : ℕ) (w : Worker) (draws : ℕ → ℕ) (seen : ℕ → Seen) (pool' : Pool D)
        (o : Option ℕ)
        → get_elem? s.workers i ≡ some w
        → w.phase ≡ working
        → ((k : ℕ) → draws k < length s.workers)
        → worker_turn deque i draws seen s.pool ≡ ret (pool', o)
        → Step s (
            put_worker i
              (record w { phase = testing })
              (record s { pool = pool'; resumed = s.resumed ++ as_list o }))
    finalizes :
        (s : Running D) → s.lifetime ≢ destroyed → Step s (record s { source_stopped = true })
    -- the destructor, up to `threads.clear()`
    destroys :
        (s : Running D)
        → s.lifetime ≡ in_use
        → Step s (record s { source_stopped = true; lifetime = clearing 0 })
    -- the destructor of a `std::jthread`, which asks it to stop and joins it
    requests :
        (s : Running D) (k : ℕ) (w : Worker)
        → s.lifetime ≡ clearing k
        → get_elem? s.workers k ≡ some w
        → Step s (put_worker k (record w { stop_requested = true }) s)
    joins :
        (s : Running D) (k : ℕ) (w : Worker)
        → s.lifetime ≡ clearing k
        → get_elem? s.workers k ≡ some w
        → w.stop_requested ≡ true
        → w.phase ≡ finished
        → Step s (record s { lifetime = clearing (suc k) })
    cleared :
        (s : Running D) (k : ℕ)
        → s.lifetime ≡ clearing k
        → get_elem? s.workers k ≡ none
        → Step s (record s { lifetime = destroyed })

  pub data Steps : Running D → Running D → Type 0 where
    no_step : (s : Running D) → Steps s s
    one_step : (s t u : Running D) → Step s t → Steps t u → Steps s u
