-- ===== src/Pool/Run/Orderly.antt =====
-- include/ThreadPool.hpp: the order in which workers are asked to stop, stop and are joined.
use rg.Prelude.{
  ℕ, suc, ◌<◌, ◌==◌, List, length, length-set, get_elem?, set, some, ◌≡◌, ◌≢◌, ◌⊎◌, ap, sym, ◌∙◌,
  subst, arith, Bool-cases, inl, inr, true, get_elem?-set_self, get_elem?-set_ne,
}
use rg.Pool.Run.{Phase, finished, Worker, Lifetime, in_use, clearing, destroyed}

set_cases :
    (ws : List Worker) (i j : ℕ) (v u w : Worker)
    → get_elem? ws i ≡ some u
    → get_elem? (set ws i v) j ≡ some w
    → ((i ≡ j) × (w ≡ v)) ⊎ (get_elem? ws j ≡ some w)
set_cases ws i j v u w here at = elim (Bool-cases (i == j)) [
  | inl e ↦
      let same : i ≡ j = ground arith in
      let now =
        subst (λ k. get_elem? (set ws i v) k ≡ some v) same (get_elem?-set_self ws i v u here) in
      inl (same, cc)
  | inr e ↦ inr (sym (get_elem?-set_ne ws i j v (ground arith)) ∙ at)
]

-- How many threads the destructor has asked to stop, and how many it has joined, of `n`.
abbrev pub asked : Lifetime → ℕ → ℕ
asked in_use n = 0
asked (clearing k) n = suc k
asked destroyed n = n

abbrev pub joined : Lifetime → ℕ → ℕ
joined in_use n = 0
joined (clearing k) n = k
joined destroyed n = n

pub record Orderly (n : ℕ) (ws : List Worker) (l : Lifetime) : Type 0 where
  pub sized : length ws ≡ n
  pub stops :
      (i : ℕ) (w : Worker) → get_elem? ws i ≡ some w → w.stop_requested ≡ true → i < asked l n
  pub finishes :
      (i : ℕ) (w : Worker) → get_elem? ws i ≡ some w → w.phase ≡ finished → w.stop_requested ≡ true
  pub over : (i : ℕ) (w : Worker) → get_elem? ws i ≡ some w → i < joined l n → w.phase ≡ finished

module _ (n : ℕ) (ws : List Worker) (l : Lifetime) (i : ℕ) (w : Worker) (o : Orderly n ws l)
    (here : get_elem? ws i ≡ some w) where
  -- A worker that had not finished moves on, and finishes only if it was asked to stop.
  pub moved-Orderly :
      (p : Phase)
      → w.phase ≢ finished
      → (p ≢ finished) ⊎ (w.stop_requested ≡ true)
      → Orderly n (set ws i (record w { phase = p })) l
  moved-Orderly p not_over only = record {
    sized = length-set ws i _ ∙ o.sized;
    stops = λ j u at stop. elim (set_cases ws i j (record w { phase = p }) w u here at) [
      | inl (same, e) ↦
          let was = o.stops i w here (sym (ap (λ x. x.stop_requested) e) ∙ stop) in omega arith
      | inr old ↦ o.stops j u old stop
    ];
    finishes = λ j u at fin. elim (set_cases ws i j (record w { phase = p }) w u here at) [
      | inl (same, e) ↦ elim only [
        | inl ne ↦ absurd (ne (sym (ap (λ x. x.phase) e) ∙ fin))
        | inr stop ↦ ap (λ x. x.stop_requested) e ∙ stop
      ]
      | inr old ↦ o.finishes j u old fin
    ];
    over = λ j u at low. elim (set_cases ws i j (record w { phase = p }) w u here at) [
      | inl (same, e) ↦ absurd (not_over (o.over i w here (omega arith)))
      | inr old ↦ o.over j u old low
    ];
  }

  pub asked-Orderly : i < asked l n → Orderly n (set ws i (record w { stop_requested = true })) l
  asked-Orderly reached = record {
    sized = length-set ws i _ ∙ o.sized;
    stops = λ j u at stop.
        elim (set_cases ws i j (record w { stop_requested = true }) w u here at) [
          | inl (same, e) ↦ omega arith
          | inr old ↦ o.stops j u old stop
        ];
    finishes = λ j u at fin.
        elim (set_cases ws i j (record w { stop_requested = true }) w u here at) [
          | inl (same, e) ↦ ap (λ x. x.stop_requested) e
          | inr old ↦ o.finishes j u old fin
        ];
    over = λ j u at low. elim (set_cases ws i j (record w { stop_requested = true }) w u here at) [
      | inl (same, e) ↦ ap (λ x. x.phase) e ∙ o.over i w here (omega arith)
      | inr old ↦ o.over j u old low
    ];
  }
