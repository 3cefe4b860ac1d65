-- ===== src/Node/Early.antt =====
-- `remove_task` of a task that is not the oldest one, and what is lost when the tasks that run
-- together do not end in the order in which they came.
use rg.Prelude.{
  ℕ, zero, suc, ◌+◌, ◌-◌, ◌<◌, ◌≤◌, ◌≡◌, ◌≢◌, ap, true, Bool-cases, inl, inr, ◌==◌, ==_iff, length,
  set, arith,
}
use rg.Prelude.Exec.{ret}
use rg.Node.{ResourceNode, World, num_tasks, return, find_and_mark, remove_task}
use rg.Node.Window.{load_in}
use rg.Node.Remove.{entry}

-- Entry `p` is marked as removed.
abbrev pub marked : ResourceNode → ℕ → ResourceNode
marked n p = record n { tasks = set n.tasks p (record (entry n p) { remove_state = true }) }

-- An entry between `cur` and `p` with the handle that is looked for.
record Found (n : ResourceNode) (handle cur p : ℕ) : Type 0 where
  place : ℕ
  from : cur ≤ place
  upto : place ≤ p
  same : (entry n place).handle ≡ handle

-- The loop marks the first entry with the handle. Its compare-exchange fails: the expected value
-- is read after the increment, and `first` is behind.
find_and_mark_lem :
    (d fuel : ℕ) (n : ResourceNode) (handle cur fnr : ℕ)
    → d < fuel
    → n.first ≤ cur
    → cur + d < fnr
    → fnr ≤ length n.tasks
    → (entry n (cur + d)).handle ≡ handle
    → (f : Found n handle cur (cur + d)) × (find_and_mark fuel n handle cur fnr
        ≡ ret (marked n f.place, return))
unfolding find_and_mark
find_and_mark_lem d zero n handle cur fnr h b c s e = absurd (omega arith)
find_and_mark_lem zero (suc fuel) n handle cur fnr h b c s e =
    let z : cur + 0 ≡ cur = omega arith in
    let e' : (entry n cur).handle ≡ handle = rw z at e in
    (
      record { place = cur; from = omega arith; upto = omega arith; same = e' },
      ground (arith, load_in n.tasks cur (omega arith)),
    )
find_and_mark_lem (suc d) (suc fuel) n handle cur fnr h b c s e =
    let z : cur + suc d ≡ cur + 1 + d = omega arith in
    let e' : (entry n (cur + 1 + d)).handle ≡ handle = rw z at e in
    let (f, ih) =
      find_and_mark_lem d fuel n handle (cur + 1) fnr (omega arith) (omega arith) (omega arith) s
        e' in
    elim (Bool-cases ((entry n cur).handle == handle)) [
      | inl hit ↦ (
        record { place = cur; from = omega arith; upto = omega arith; same = (==_iff _ _).0 hit },
        ground (arith, load_in n.tasks cur (omega arith)),
      )
      | inr miss ↦ (
        record {
          place = f.place;
          from = omega (arith, f.from);
          upto = omega (arith, f.upto);
          same = f.same;
        },
        ground (arith, load_in n.tasks cur (omega arith), ih),
      )
    ]

-- The end of a running task that is not the oldest one marks an entry with its handle and changes
-- nothing else: no index moves, no counter changes and the pool gets nothing.
pub remove_task_early :
    (n : ResourceNode) (w : World) (p : ℕ)
    → n.first < p
    → p < n.first_not_ready
    → n.first_not_ready ≤ num_tasks
    → length n.tasks ≡ num_tasks
    → (entry n n.first).handle ≢ (entry n p).handle
    → (q : ℕ) × (n.first < q)
      × (q ≤ p)
      × ((entry n q).handle ≡ (entry n p).handle)
      × (remove_task n w (entry n p).handle ≡ ret (marked n q, w))
unfolding remove_task
remove_task_early n w p a b c s ne =
    let d = p - (n.first + 1) in
    let e : n.first + 1 + d ≡ p = omega arith in
    let (f, run) =
      find_and_mark_lem d (num_tasks + 1) n (entry n p).handle (n.first + 1) n.first_not_ready
        (omega arith) (omega arith) (omega arith) (omega arith) (ap (λ i. (entry n i).handle) e) in
    (
      f.place,
      omega (arith, f.from),
      omega (arith, f.upto),
      f.same,
      ground (arith, load_in n.tasks n.first (omega arith), run),
    )
