-- ===== src/Pool/Run/Destroyed.antt =====
-- include/ThreadPool.hpp: the threads that the destructor still has to join.
use rg.Prelude.{
  ℕ, zero, suc, ◌+◌, ◌≤◌, ◌++◌, length, length-set, get_elem?, none, some, if◌then◌else◌,
  Option-cases, ◌≡◌, refl, ◌∙◌, arith, inl, inr, true, false, get_elem?-some, get_elem?-set_self,
}
use rg.Barrier.{Seen}
use rg.Pool.{Deque}
use rg.Pool.Work.{worker_turn_lem}
use rg.Pool.Run.{
  Phase, testing, working, finished, Worker, clearing, destroyed, Running, Step, tests, turns,
  requests, joins, cleared, Steps, no_step, one_step, put_worker, as_list, new_running,
}
use rg.Pool.Run.Conserved.{Kept, Step-Kept, Steps-Kept, new_running-Kept}

module _ {D : Type 0} (deque : Deque D) where
  pub Steps-append : {s t u : Running D} → Steps deque s t → Steps deque t u → Steps deque s u
  Steps-append (no_step s) more = more
  Steps-append (one_step s t u one rest) more = one_step s t _ one (Steps-append rest more)

  -- The thread `k` has been joined, and nothing else was asked for meanwhile.
  abbrev Joined : Running D → ℕ → Type 0
  Joined s k =
      (s' : Running D) × Steps deque s s'
      × (s'.lifetime ≡ clearing (suc k))
      × (length s'.workers ≡ length s.workers)

  after :
      {s t : Running D} (k : ℕ)
      → Step deque s t
      → length t.workers ≡ length s.workers
      → Joined t k
      → Joined s k
  after {s} {t} k one len (s', rest, life, len') = (s', one_step s t s' one rest, life, len' ∙ len)

  module _ (seen : Seen) (k : ℕ) where
    join_finished :
        (s : Running D) (w : Worker)
        → s.lifetime ≡ clearing k
        → get_elem? s.workers k ≡ some w
        → w.stop_requested ≡ true
        → w.phase ≡ finished
        → Joined s k
    join_finished s w life here stop at =
        let s' : Running D = record s { lifetime = clearing (suc k) } in
        (s', one_step s s' s' (joins s k w life here stop at) (no_step s'), refl, refl)

    join_testing :
        (s : Running D) (w : Worker)
        → s.lifetime ≡ clearing k
        → get_elem? s.workers k ≡ some w
        → w.stop_requested ≡ true
        → w.phase ≡ testing
        → Joined s k
    join_testing s w life here stop at =
        let w' : Worker = record w { phase = if w.stop_requested then finished else working } in
        after k (tests s k w here at) (length-set s.workers k w') (
          join_finished (put_worker k w' s) w' life (get_elem?-set_self s.workers k w' w here) stop
            (rw stop refl))

    join_working :
        (s : Running D) (w : Worker)
        → Kept deque 0 s
        → s.lifetime ≡ clearing k
        → get_elem? s.workers k ≡ some w
        → w.stop_requested ≡ true
        → w.phase ≡ working
        → Joined s k
    join_working s w kept life here stop at =
        let low = get_elem?-some s.workers k w here in
        let draws : ℕ → ℕ = λ j. 0 in
        let (pool', o, run, _, _) =
          worker_turn_lem deque 0 k draws (λ j. seen) s.pool (omega (arith, kept.sized))
            (λ j. omega (arith, kept.sized)) in
        let w' : Worker = record w { phase = testing } in
        let s' : Running D =
          put_worker k w' (record s { pool = pool'; resumed = s.resumed ++ as_list o }) in
        after k (turns s k w draws (λ j. seen) pool' o here at (λ j. omega arith) run)
          (length-set s.workers k w')
          (join_testing s' w' life (get_elem?-set_self s.workers k w' w here) stop refl)

    join_asked :
        (p : Phase) (s : Running D) (w : Worker)
        → Kept deque 0 s
        → s.lifetime ≡ clearing k
        → get_elem? s.workers k ≡ some w
        → w.stop_requested ≡ true
        → w.phase ≡ p
        → Joined s k
    join_asked testing s w kept life here stop at = join_testing s w life here stop at
    join_asked working s w kept life here stop at = join_working s w kept life here stop at
    join_asked finished s w kept life here stop at = join_finished s w life here stop at

    join_next :
        (s : Running D) (w : Worker)
        → Kept deque 0 s
        → s.lifetime ≡ clearing k
        → get_elem? s.workers k ≡ some w
        → Joined s k
    join_next s w kept life here =
        let w' : Worker = record w { stop_requested = true } in
        let asks = requests s k w life here in
        after k asks (length-set s.workers k w') (
          join_asked w.phase (put_worker k w' s) w' (Step-Kept deque 0 asks kept) life
            (get_elem?-set_self s.workers k w' w here) refl refl)

  clear_now :
      (s : Running D) (k : ℕ)
      → s.lifetime ≡ clearing k
      → get_elem? s.workers k ≡ none
      → (s' : Running D) × Steps deque s s' × (s'.lifetime ≡ destroyed)
  clear_now s k life at =
      let s' : Running D = record s { lifetime = destroyed } in
      (s', one_step s s' s' (cleared s k life at) (no_step s'), refl)

  clear_from :
      (seen : Seen) (d k : ℕ) (s : Running D)
      → Kept deque 0 s
      → s.lifetime ≡ clearing k
      → length s.workers ≤ k + d
      → (s' : Running D) × Steps deque s s' × (s'.lifetime ≡ destroyed)
  clear_from seen zero k s kept life le = elim (Option-cases (get_elem? s.workers k)) [
    | inl none_left ↦ clear_now s k life none_left
    | inr (w, here) ↦ absurd (omega (arith, get_elem?-some s.workers k w here))
  ]
  clear_from seen (suc d) k s kept life le = elim (Option-cases (get_elem? s.workers k)) [
    | inl none_left ↦ clear_now s k life none_left
    | inr (w, here) ↦
        let (s', first, life', len) = join_next seen k s w kept life here in
        let (s'', rest, over) =
          clear_from seen d (suc k) s' (Steps-Kept deque 0 first kept) life' (omega arith) in
        (s'', Steps-append first rest, over)
  ]

  -- Wherever the destructor of a pool has come to, it can go on to its end: the threads that are left
  -- can be asked to stop and joined one after the other, wherever they are in their loops.
  pub destroyed-Steps :
      (n k : ℕ) (s : Running D)
      → Steps deque (new_running deque n) s
      → s.lifetime ≡ clearing k
      → (s' : Running D) × Steps deque s s' × (s'.lifetime ≡ destroyed)
  destroyed-Steps n k s r life =
      let seen : Seen = record { counts = λ p. 0; outside = λ p. false } in
      clear_from seen (length s.workers) k s (Steps-Kept deque 0 r (new_running-Kept deque 0 n))
        life (omega arith)
