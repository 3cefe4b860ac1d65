-- ===== src/Pool/Run/Conserved.antt =====
-- include/ThreadPool.hpp: the handles that were added or put into the barrier queue, are held and were resumed, over the life
-- of a pool.
use rg.Prelude.{
  ℕ, zero, suc, ◌+◌, ◌≤◌, ltb, ltb→lt, List, [], ◌∷◌, length, length-set, length-replicate,
  replicate, Option, none, some, ◌≡◌, refl, ap, sym, ◌∙◌, arith, Bool-cases, inl, inr,
  get_elem?-some,
}
use rg.Prelude.Exec.{ret, undefined, ret-injective}
use rg.Barrier.{Entry, emplace_back}
use rg.Pool.{Deque, Pool, Thread, main_thread, worker_thread, at_queue, add_task}
use rg.Pool.Count.{copies, copies_in, copies-append, copies_at, copies_waiting, total}
use rg.Pool.Work.{at_emplace, worker_turn_lem}
use rg.Pool.Run.{
  Running, Step, adds, enters, tests, turns, finalizes, destroys, requests, joins, cleared, Steps,
  no_step, one_step, as_list, new_running,
}

copies-as_list : (x : ℕ) (o : Option ℕ) → copies x (as_list o) ≡ copies_in x o
unfolding copies copies_in
copies-as_list x none = refl
copies-as_list x (some h) = omega arith

at_queue_out :
    {D : Type 0} {A : Type 0} (f : D → D × A) (i : ℕ) (ds : List D)
    → length ds ≤ i
    → at_queue f i ds ≡ undefined
unfolding at_queue
at_queue_out f i [] h = refl
at_queue_out f zero (d ∷ ds) h = absurd (omega arith)
at_queue_out f (suc i) (d ∷ ds) h = rw (at_queue_out f i ds (omega arith)) refl

module _ {D : Type 0} (deque : Deque D) (x : ℕ) where
  add_task-total :
      (t : Thread) (h : ℕ) (pool pool' : Pool D)
      → add_task deque t h pool ≡ ret pool'
      → (length pool'.thread_queues ≡ length pool.thread_queues)
        × (total deque x pool' ≡ total deque x pool + copies x (h ∷ []))
  unfolding add_task total
  add_task-total main_thread h pool pool' run =
      let e = ret-injective run in
      (
        ap (λ p. length p.thread_queues) (sym e),
        ap (total deque x) (sym e)
            ∙ rw (deque.content-emplace h pool.master_queue)
                (omega (arith, copies-append x (deque.content pool.master_queue) (h ∷ []))),
      )
  add_task-total (worker_thread i) h pool pool' run =
      elim (Bool-cases (ltb i (length pool.thread_queues))) [
        | inl lt ↦
            let (ds', q, len, sum) =
              at_emplace deque x h i pool.thread_queues (ltb→lt i (length pool.thread_queues) lt) in
            let e : record pool { thread_queues = ds' } ≡ pool' =
              ret-injective (sym (rw q refl) ∙ run) in
            (
              ap (λ p. length p.thread_queues) (sym e) ∙ len,
              ap (total deque x) (sym e) ∙ omega arith,
            )
        | inr ge ↦
            let q =
              at_queue_out (λ d. (deque.emplace h d, h)) i pool.thread_queues (ground arith) in
            cc
      ]

  copies_waiting-append :
      (queue : List Entry) (e : Entry)
      → copies_waiting deque x (emplace_back queue e)
        ≡ copies_waiting deque x queue + copies x (e.handle ∷ [])
  unfolding copies_waiting copies emplace_back
  copies_waiting-append [] e = omega arith
  copies_waiting-append (f ∷ queue) e = omega (arith, copies_waiting-append queue e)

  enter-total :
      (pool : Pool D) (e : Entry)
      → total deque x (record pool { barrier_queue = emplace_back pool.barrier_queue e })
        ≡ total deque x pool + copies x (e.handle ∷ [])
  unfolding total
  enter-total pool e = omega (arith, copies_waiting-append pool.barrier_queue e)

  pub record Kept (s : Running D) : Type 0 where
    pub sized : length s.workers ≡ length s.pool.thread_queues
    pub balanced : total deque x s.pool + copies x s.resumed ≡ copies x s.added

  pub Step-Kept : {s t : Running D} → Step deque s t → Kept s → Kept t
  Step-Kept (adds s t h pool' life run) k =
      let (len, sum) = add_task-total t h s.pool pool' run in
      record {
        sized = k.sized ∙ sym len;
        balanced = omega (arith, sum, k.balanced, copies-append x s.added (h ∷ []));
      }
  Step-Kept (enters s e life) k = record {
    sized = k.sized;
    balanced =
        omega (arith, enter-total s.pool e, k.balanced, copies-append x s.added (e.handle ∷ []));
  }
  Step-Kept (tests s i w here at) k = record {
    sized = length-set s.workers i _ ∙ k.sized;
    balanced = k.balanced;
  }
  Step-Kept (turns s i w draws seen pool' o here at lt run) k =
      let low = get_elem?-some s.workers i w here in
      let (pool'', o', run', len, sum) =
        worker_turn_lem deque x i draws seen s.pool (omega (arith, k.sized))
          (λ j. omega (arith, lt j, k.sized)) in
      let same = ret-injective (sym run' ∙ run) in
      let e : pool'' ≡ pool' = ap (λ p. p.0) same in
      let f : o' ≡ o = ap (λ p. p.1) same in
      record {
        sized = length-set s.workers i _ ∙ k.sized ∙ sym len ∙ ap (λ p. length p.thread_queues) e;
        balanced = omega (
          arith,
          sum,
          k.balanced,
          ap (total deque x) e,
          ap (copies_in x) f,
          copies-as_list x o,
          copies-append x s.resumed (as_list o),
        );
      }
  Step-Kept (finalizes s life) k = record { sized = k.sized; balanced = k.balanced }
  Step-Kept (destroys s life) k = record { sized = k.sized; balanced = k.balanced }
  Step-Kept (requests s j w life here) k = record {
    sized = length-set s.workers j _ ∙ k.sized;
    balanced = k.balanced;
  }
  Step-Kept (joins s j w life here stop at) k = record { sized = k.sized; balanced = k.balanced }
  Step-Kept (cleared s j life here) k = record { sized = k.sized; balanced = k.balanced }

  pub Steps-Kept : {s t : Running D} → Steps deque s t → Kept s → Kept t
  Steps-Kept (no_step s) k = k
  Steps-Kept (one_step s t u one more) k = Steps-Kept more (Step-Kept one k)

  replicate-copies : (n : ℕ) → copies_at deque x (replicate n deque.empty) ≡ 0
  unfolding copies_at copies
  replicate-copies zero = refl
  replicate-copies (suc n) = rw deque.content-empty (omega (arith, replicate-copies n))

  pub new_running-Kept : (n : ℕ) → Kept (new_running deque n)
  unfolding new_running total copies copies_waiting
  new_running-Kept n = record {
    sized = length-replicate n _ ∙ sym (length-replicate n deque.empty);
    balanced = rw (replicate-copies n, deque.content-empty) refl;
  }

  -- Whatever the threads of a pool do, up to and in the destructor: every handle that was passed to
  -- `addTask` or put into the barrier queue has been resumed or is still held, and never more often than
  -- that happened. The copies that the queues of the pool hold, the barrier queue among them, and the ones
  -- that were resumed are as many as those that were added or put there, also after workers have moved
  -- handles out of the barrier queue.
  pub balanced-Steps :
      (n : ℕ) (s : Running D)
      → Steps deque (new_running deque n) s
      → total deque x s.pool + copies x s.resumed ≡ copies x s.added
  balanced-Steps n s r = (Steps-Kept r (new_running-Kept n)).balanced
