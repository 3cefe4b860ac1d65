-- ===== src/Schedule/Enqueued.antt =====
-- include/dispatchTask.hpp: the queues once the accesses of a task were enqueued.
use rg.Prelude.{
  ℕ, ◌+◌, ◌==◌, if◌then◌else◌, List, [], ◌∷◌, ◌++◌, ◌≡◌, ◌≢◌, refl, ap, sym, ◌∙◌, arith, Bool-cases,
  inl, inr, true, false,
}
use rg.Node.{TaskAccess}
use rg.Node.Queue.{Queue, admits, starts, enqueue}
use rg.Dispatch.{Argument, plain, access, Coroutine, task_access}
use rg.Dispatch.Register.{accesses, resource_nodes, set_queue, enqueue_all, started_now}
use rg.Schedule.{Below, entries_of}
use rg.Schedule.Lists.{count, count-append, waiting_sum, waiting_sum-set_queue}

-- All entries of a queue, oldest first.
abbrev pub everyone : Queue → List TaskAccess
everyone q = q.running ++ q.waiting

pub append_nil {ℓ} : {A : Type ℓ} (xs : List A) → xs ++ [] ≡ xs
append_nil [] = refl
append_nil (x ∷ xs) = ap (λ l. x ∷ l) (append_nil xs)

pub append_assoc {ℓ} : {A : Type ℓ} (xs ys zs : List A) → (xs ++ ys) ++ zs ≡ xs ++ (ys ++ zs)
append_assoc [] ys zs = refl
append_assoc (x ∷ xs) ys zs = ap (λ l. x ∷ l) (append_assoc xs ys zs)

parts-everyone :
    (rs ws : List TaskAccess) (t : TaskAccess)
    → everyone (enqueue (record { running = rs; waiting = ws }) t) ≡ (rs ++ ws) ++ (t ∷ [])
unfolding enqueue
parts-everyone rs [] t = elim (Bool-cases (admits rs t)) [
  | inl e ↦ rw (e, append_nil rs, append_nil (rs ++ (t ∷ []))) refl
  | inr e ↦ rw (e, append_nil rs) refl
]
parts-everyone rs (w ∷ ws) t = sym (append_assoc rs (w ∷ ws) (t ∷ []))

pub enqueue-everyone :
    (q : Queue) (t : TaskAccess) → everyone (enqueue q t) ≡ everyone q ++ (t ∷ [])
enqueue-everyone q t = parts-everyone q.running q.waiting t

enqueue-count :
    (q : Queue) (t : TaskAccess) (p : ℕ)
    → count p (enqueue q t).waiting + (if starts q t then count p (t ∷ []) else 0)
      ≡ count p q.waiting + count p (t ∷ [])
unfolding enqueue
enqueue-count q t p = elim (Bool-cases (starts q t)) [
  | inl e ↦ rw e refl
  | inr e ↦ rw e (omega (arith, count-append p q.waiting (t ∷ [])))
]

module _ (co : Coroutine) where
  pub enqueue_all-everyone :
      (args : List Argument) (qs : ℕ → Queue) (j : ℕ)
      → everyone (enqueue_all co args qs j) ≡ everyone (qs j) ++ entries_of j co args
  enqueue_all-everyone [] qs j = sym (append_nil (everyone (qs j)))
  enqueue_all-everyone (plain ∷ args) qs j = enqueue_all-everyone args qs j
  enqueue_all-everyone (access node mode ∷ args) qs j =
      let t = task_access co mode in
      let rest = enqueue_all-everyone args (set_queue qs node (enqueue (qs node) t)) j in
      elim (Bool-cases (node == j)) [
        | inl e ↦
            let same : node ≡ j = ground arith in
            rw e at rest
            ∙ rw (e, same, enqueue-everyone (qs j) t)
                (append_assoc (everyone (qs j)) (t ∷ []) (entries_of j co args))
        | inr e ↦ rw e at rest ∙ rw e refl
      ]

  -- The accesses of a task that do not start at once wait.
  pub enqueue_all-own :
      (N : ℕ) (args : List Argument) (qs : ℕ → Queue)
      → Below N (resource_nodes args)
      → waiting_sum N (enqueue_all co args qs) co.wait_counter_p + started_now co args qs
        ≡ waiting_sum N qs co.wait_counter_p + accesses args
  enqueue_all-own N [] qs below = refl
  enqueue_all-own N (plain ∷ args) qs below = enqueue_all-own N args qs below
  enqueue_all-own N (access node mode ∷ args) qs (low, below) =
      let t = task_access co mode in
      let q = enqueue (qs node) t in
      let p = co.wait_counter_p in
      let rest = enqueue_all-own N args (set_queue qs node q) below in
      let once : (p == p) ≡ true = ground arith in
      let one : count p (t ∷ []) ≡ 1 = rw once refl in
      ground
        (arith, rest, waiting_sum-set_queue N qs node q p low, enqueue-count (qs node) t p, one)

  -- The others wait as before.
  pub enqueue_all-others :
      (N : ℕ) (args : List Argument) (qs : ℕ → Queue) (p : ℕ)
      → co.wait_counter_p ≢ p
      → Below N (resource_nodes args)
      → waiting_sum N (enqueue_all co args qs) p ≡ waiting_sum N qs p
  enqueue_all-others N [] qs p ne below = refl
  enqueue_all-others N (plain ∷ args) qs p ne below = enqueue_all-others N args qs p ne below
  enqueue_all-others N (access node mode ∷ args) qs p ne (low, below) =
      let t = task_access co mode in
      let q = enqueue (qs node) t in
      let rest = enqueue_all-others N args (set_queue qs node q) p ne below in
      let no : (co.wait_counter_p == p) ≡ false = ground arith in
      let zero : count p (t ∷ []) ≡ 0 = rw no refl in
      ground
        (arith, rest, waiting_sum-set_queue N qs node q p low, enqueue-count (qs node) t p, zero)
