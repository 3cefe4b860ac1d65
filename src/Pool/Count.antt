-- ===== src/Pool/Count.antt =====
-- include/ThreadPool.hpp: how often the queues hold a handle, and that taking one out is counted.
use rg.Prelude.{
  ℕ, zero, suc, ◌+◌, ◌<◌, ◌==◌, if◌then◌else◌, Option-cases, inl, inr, List, [], ◌∷◌, ◌++◌, length,
  Option, none, some, arith, ◌≡◌, refl, ap,
}
use rg.Prelude.Exec.{ret}
use rg.Barrier.{Entry}
use rg.Pool.{Deque, Pool, at_queue}

unfoldable pub copies : ℕ → List ℕ → ℕ
copies x [] = 0
copies x (h ∷ hs) = (if h == x then 1 else 0) + copies x hs

unfoldable pub copies_in : ℕ → Option ℕ → ℕ
copies_in x none = 0
copies_in x (some h) = if h == x then 1 else 0

pub copies-append : (x : ℕ) (hs ks : List ℕ) → copies x (hs ++ ks) ≡ copies x hs + copies x ks
unfolding copies
copies-append x [] ks = omega arith
copies-append x (h ∷ hs) ks = omega (arith, copies-append x hs ks)

copies-one : (x h : ℕ) → copies x (h ∷ []) ≡ copies_in x (some h)
unfolding copies copies_in
copies-one x h = omega arith

module _ {D : Type 0} (deque : Deque D) (x : ℕ) where
  unfoldable pub copies_at : List D → ℕ
  copies_at [] = 0
  copies_at (d ∷ ds) = copies x (deque.content d) + copies_at ds

  unfoldable pub copies_waiting : List Entry → ℕ
  copies_waiting [] = 0
  copies_waiting (e ∷ queue) = copies x (e.handle ∷ []) + copies_waiting queue

  -- How often the pool holds a handle.
  unfoldable pub total : Pool D → ℕ
  total pool =
      copies_at pool.thread_queues
      + copies x (deque.content pool.master_queue)
      + copies_waiting pool.barrier_queue

  unfoldable pub Keeps : (D → D × Option ℕ) → Type 0
  Keeps f =
      (d : D) → copies x (deque.content d) ≡ copies x (deque.content (f d).0) + copies_in x (f d).1

  pub pop-Keeps : Keeps deque.pop
  unfolding Keeps copies copies_in
  pop-Keeps d = elim (Option-cases (deque.pop d).1) [
    | inl e ↦ let (now, then_on) = deque.pop_none d e in rw (e, now, then_on) refl
    | inr (h, e) ↦
        rw
          (
            e,
            deque.pop_some d h e,
            copies-append x (deque.content (deque.pop d).0) (h ∷ []),
            copies-one x h,
          )
          refl
  ]

  pub steal-Keeps : Keeps deque.steal
  unfolding Keeps copies copies_in
  steal-Keeps d = elim (Option-cases (deque.steal d).1) [
    | inl e ↦ rw (e, deque.steal_none d e) (omega arith)
    | inr (h, e) ↦ rw (e, deque.steal_some d h e) (omega arith)
  ]

  pub at_queue-Keeps :
      (f : D → D × Option ℕ)
      → Keeps f
      → (i : ℕ) (ds : List D) → i < length ds
      → (ds' : List D) × (o : Option ℕ) × (at_queue f i ds ≡ ret (ds', o))
        × (length ds' ≡ length ds)
        × (copies_at ds ≡ copies_at ds' + copies_in x o)
  unfolding at_queue copies_at Keeps
  at_queue-Keeps f keeps i [] h = absurd (omega arith)
  at_queue-Keeps f keeps zero (d ∷ ds) h =
      ((f d).0 ∷ ds, (f d).1, refl, refl, omega (arith, keeps d))
  at_queue-Keeps f keeps (suc i) (d ∷ ds) h =
      let (ds', o, e, len, sum) = at_queue-Keeps f keeps i ds (omega arith) in
      (d ∷ ds', o, rw e refl, ap suc len, omega arith)
