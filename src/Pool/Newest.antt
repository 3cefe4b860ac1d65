-- ===== src/Pool/Newest.antt =====
-- include/ThreadPool.hpp: a worker takes up first what it was the last to add.
use rg.Prelude.{
  ℕ, zero, suc, ◌<◌, inl, inr, Option-cases, List, [], ◌∷◌, ◌++◌, map, length, some, arith, ◌≡◌,
  ◌≢◌, refl, sym, ap, ◌∙◌,
}
use rg.Prelude.Exec.{ret}
use rg.Barrier.{Seen}
use rg.Pool.{Deque, Pool, worker_thread, at_queue, add_task, pop_own, worker_turn}

snoc-ne-nil : (hs : List ℕ) (h : ℕ) → hs ++ (h ∷ []) ≢ []
snoc-ne-nil [] h e = cc
snoc-ne-nil (x ∷ hs) h e = cc

snoc-injective : (hs ks : List ℕ) (h k : ℕ) → hs ++ (h ∷ []) ≡ ks ++ (k ∷ []) → (hs ≡ ks) × (h ≡ k)
snoc-injective [] [] h k e = (refl, cc)
snoc-injective [] (y ∷ ks) h k e = absurd (snoc-ne-nil ks k cc)
snoc-injective (x ∷ hs) [] h k e = absurd (snoc-ne-nil hs h cc)
snoc-injective (x ∷ hs) (y ∷ ks) h k e =
    let (same, last) = snoc-injective hs ks h k cc in (cc, last)

module _ {D : Type 0} (deque : Deque D) where
  pop-emplace :
      (h : ℕ) (d : D)
      → ((deque.pop (deque.emplace h d)).1 ≡ some h)
        × (deque.content (deque.pop (deque.emplace h d)).0 ≡ deque.content d)
  pop-emplace h d =
      let d1 = deque.emplace h d in
      elim (Option-cases (deque.pop d1).1) [
        | inl e ↦
            let (now, _) = deque.pop_none d1 e in
            absurd (snoc-ne-nil (deque.content d) h (sym (deque.content-emplace h d) ∙ now))
        | inr (k, e) ↦
            let both = sym (deque.content-emplace h d) ∙ deque.pop_some d1 k e in
            let (same, last) =
              snoc-injective (deque.content d) (deque.content (deque.pop d1).0) h k both in
            (e ∙ ap some (sym last), sym same)
      ]

  at_queue-pop-emplace :
      (h i : ℕ) (ds : List D)
      → i < length ds
      → (ds' : List D) × (ds'' : List D) × (at_queue (λ d. (deque.emplace h d, h)) i ds
          ≡ ret (ds', h))
        × (at_queue deque.pop i ds' ≡ ret (ds'', some h))
        × (map deque.content ds'' ≡ map deque.content ds)
  unfolding at_queue
  at_queue-pop-emplace h i [] lt = absurd (omega arith)
  at_queue-pop-emplace h zero (d ∷ ds) lt =
      let (found, same) = pop-emplace h d in
      let d1 = deque.emplace h d in
      (d1 ∷ ds, (deque.pop d1).0 ∷ ds, refl, rw found refl, ap (λ c. c ∷ map deque.content ds) same)
  at_queue-pop-emplace h (suc i) (d ∷ ds) lt =
      let (ds', ds'', e, e', same) = at_queue-pop-emplace h i ds (omega arith) in
      (d ∷ ds', d ∷ ds'', rw e refl, rw e' refl, ap (λ cs. deque.content d ∷ cs) same)

  -- If a worker of the pool adds a task and nobody steals in between, its next turn resumes that
  -- task, whatever else is queued, and the queues then hold what they held before.
  pub worker_turn-add_task :
      (index h : ℕ) (draws : ℕ → ℕ) (seen : ℕ → Seen) (pool : Pool D)
      → index < length pool.thread_queues
      → (pool1 : Pool D) × (pool2 : Pool D) × (add_task deque (worker_thread index) h pool
          ≡ ret pool1)
        × (worker_turn deque index draws seen pool1 ≡ ret (pool2, some h))
        × (map deque.content pool2.thread_queues ≡ map deque.content pool.thread_queues)
        × (pool2.master_queue ≡ pool.master_queue)
        × (pool2.barrier_queue ≡ pool.barrier_queue)
  unfolding add_task worker_turn pop_own
  worker_turn-add_task index h draws seen pool lt =
      let (ds', ds'', e, e', same) = at_queue-pop-emplace h index pool.thread_queues lt in
      (
        record pool { thread_queues = ds' },
        record pool { thread_queues = ds'' },
        rw e refl,
        rw e' refl,
        same,
        refl,
        refl,
      )
