-- ===== src/Pool/Run/Stopped.antt =====
-- include/ThreadPool.hpp: which workers have stopped.
use rg.Prelude.{
  ℕ, ◌<◌, ◌≤◌, ltb, ltb→lt, ◌==◌, List, length-replicate, get_elem?-none, get_elem?, set, some, ◌≡◌,
  ◌≢◌, ◌⊎◌, refl, ap, sym, if◌then◌else◌, ◌∙◌, subst, arith, Bool-cases, inl, inr, false,
  get_elem?-some, get_elem?-replicate,
}
use rg.Pool.{Deque}
use rg.Pool.Run.{
  testing, working, finished, Worker, Lifetime, in_use, clearing, destroyed, Running, Step, adds,
  enters, tests, turns, finalizes, destroys, requests, joins, cleared, Steps, no_step, one_step,
  new_running,
}
use rg.Pool.Run.Orderly.{asked, joined, Orderly, moved-Orderly, asked-Orderly}

-- What the lifetime says of the worker `i`.
abbrev pub Stage : ℕ → Worker → Lifetime → Type 0
Stage i w in_use = (w.stop_requested ≡ false) × (w.phase ≢ finished)
Stage i w (clearing k) =
    ((k ≤ i) ⊎ (w.phase ≡ finished))
    × ((i ≤ k) ⊎ ((w.stop_requested ≡ false) × (w.phase ≢ finished)))
Stage i w destroyed = w.phase ≡ finished

module _ (n : ℕ) (ws : List Worker) where
  not_asked :
      (l : Lifetime) (i : ℕ) (w : Worker)
      → Orderly n ws l
      → get_elem? ws i ≡ some w
      → asked l n ≤ i
      → (w.stop_requested ≡ false) × (w.phase ≢ finished)
  not_asked l i w o at high = elim (Bool-cases w.stop_requested) [
    | inl stop ↦ absurd (omega (arith, o.stops i w at stop))
    | inr e ↦ (e, λ fin. let stop = o.finishes i w at fin in cc)
  ]

  Orderly-Stage :
      (l : Lifetime) (i : ℕ) (w : Worker) → Orderly n ws l → get_elem? ws i ≡ some w → Stage i w l
  Orderly-Stage in_use i w o at = not_asked in_use i w o at (omega arith)
  Orderly-Stage (clearing k) i w o at = (
    elim (Bool-cases (ltb i k)) [
      | inl low ↦ inr (o.over i w at (ltb→lt i k low))
      | inr high ↦ inl (ground arith)
    ],
    elim (Bool-cases (ltb k i)) [
      | inl low ↦ inr (not_asked (clearing k) i w o at (ground arith))
      | inr high ↦ inl (ground arith)
    ],
  )
  Orderly-Stage destroyed i w o at =
      o.over i w at (omega (arith, get_elem?-some ws i w at, o.sized))

module _ {D : Type 0} (deque : Deque D) (n : ℕ) where
  InOrder : Running D → Type 0
  InOrder s = Orderly n s.workers s.lifetime

  -- The test of the loop.
  tests-Orderly :
      (s : Running D) (i : ℕ) (w : Worker)
      → InOrder s
      → get_elem? s.workers i ≡ some w
      → w.phase ≡ testing
      → Orderly n
          (set s.workers i (record w { phase = if w.stop_requested then finished else working }))
          s.lifetime
  unfolding InOrder
  tests-Orderly s i w o here at = elim (Bool-cases w.stop_requested) [
    | inl e ↦
        moved-Orderly n s.workers s.lifetime i w o here
          (if w.stop_requested then finished else working) (λ q. cc) (inr e)
    | inr e ↦
        moved-Orderly n s.workers s.lifetime i w o here
          (if w.stop_requested then finished else working) (λ q. cc)
          (inl (λ q.
            let f : (if w.stop_requested then finished else working) ≡ working = rw e refl in cc))
  ]

  Step-InOrder : {s t : Running D} → Step deque s t → InOrder s → InOrder t
  unfolding InOrder
  Step-InOrder (adds s t h pool' life run) o = o
  Step-InOrder (enters s e life) o = o
  Step-InOrder (tests s i w here at) o = tests-Orderly s i w o here at
  Step-InOrder (turns s i w draws seen pool' x here at lt run) o =
      moved-Orderly n s.workers s.lifetime i w o here testing (λ q. cc) (inl (λ q. cc))
  Step-InOrder (finalizes s life) o = o
  Step-InOrder (destroys s life) o = record {
    sized = o.sized;
    stops = λ i w at stop.
        let none : i < asked in_use n = subst (λ l. i < asked l n) life (o.stops i w at stop) in
        absurd (omega arith);
    finishes = o.finishes;
    over = λ i w at low. absurd (omega arith);
  }
  Step-InOrder (requests s k w life here) o =
      asked-Orderly n s.workers s.lifetime k w o here
        (subst (λ l. k < asked l n) (sym life) (omega arith))
  Step-InOrder (joins s k w life here stop at) o = record {
    sized = o.sized;
    stops = λ i u there yes.
        let low : i < asked (clearing k) n =
          subst (λ l. i < asked l n) life (o.stops i u there yes) in
        omega arith;
    finishes = o.finishes;
    over = λ i u there low. elim (Bool-cases (i == k)) [
      | inl e ↦
          let same : i ≡ k = ground arith in
          let there' = subst (λ j. get_elem? s.workers j ≡ some u) same there in
          let alike : w ≡ u = cc in ap (λ x. x.phase) (sym alike) ∙ at
      | inr e ↦ o.over i u there (subst (λ l. i < joined l n) (sym life) (ground arith))
    ];
  }
  Step-InOrder (cleared s k life here) o = record {
    sized = o.sized;
    stops = λ i w at stop. omega (arith, get_elem?-some s.workers i w at, o.sized);
    finishes = o.finishes;
    over = λ i w at low. o.over i w at (
        subst (λ l. i < joined l n) (sym life)
          (omega (arith, get_elem?-some s.workers i w at, get_elem?-none s.workers k here)));
  }

  Steps-InOrder : {s t : Running D} → Steps deque s t → InOrder s → InOrder t
  Steps-InOrder (no_step s) o = o
  Steps-InOrder (one_step s t u one more) o = Steps-InOrder more (Step-InOrder one o)

  new_running-InOrder : InOrder (new_running deque n)
  unfolding InOrder new_running
  new_running-InOrder =
      let idle : Worker = record { stop_requested = false; phase = testing } in
      record {
        sized = length-replicate n idle;
        stops = λ i w at stop. let e = get_elem?-replicate n i idle w at in cc;
        finishes = λ i w at fin. let e = get_elem?-replicate n i idle w at in cc;
        over = λ i w at low. absurd (omega arith);
      }

  -- However the threads of a pool of `n` workers interleave: as long as the destructor has not begun, no
  -- worker has left its loop or been asked to, whether `finalize` was called or not. Once it has
  -- joined `k` of them these have left their loops, while those behind the `k`-th go on unasked, and
  -- when it is over all have left.
  pub stopped-Steps :
      (s : Running D) (i : ℕ) (w : Worker)
      → Steps deque (new_running deque n) s
      → get_elem? s.workers i ≡ some w
      → Stage i w s.lifetime
  unfolding InOrder
  stopped-Steps s i w r at =
      let o = Steps-InOrder r new_running-InOrder in Orderly-Stage n s.workers s.lifetime i w o at
