-- ===== src/Node/Stray.antt =====
-- `remove_task` with a handle that no running task has.
use rg.Prelude.{ℕ, zero, suc, ◌+◌, ◌-◌, ◌<◌, ◌≤◌, ◌≡◌, ◌≢◌, length, arith}
use rg.Prelude.Exec.{ret}
use rg.Node.{ResourceNode, World, num_tasks, go_on, find_and_mark, remove_task}
use rg.Node.Queue.{promoted, notified_all}
use rg.Node.Window.{load_in}
use rg.Node.Grant.{wake_lem}
use rg.Node.View.{waiting, IsValid}
use rg.Node.Remove.{entry}

-- No running task has the handle.
abbrev pub Absent : ResourceNode → ℕ → Type 0
Absent n handle = (i : ℕ) → n.first ≤ i → i < n.first_not_ready → (entry n i).handle ≢ handle

find_and_mark_none :
    (d fuel : ℕ) (n : ResourceNode) (handle cur fnr : ℕ)
    → d < fuel
    → cur + d ≡ fnr
    → fnr ≤ length n.tasks
    → ((i : ℕ) → cur ≤ i → i < fnr → (entry n i).handle ≢ handle)
    → find_and_mark fuel n handle cur fnr ≡ ret (n, go_on fnr)
unfolding find_and_mark
find_and_mark_none d zero n handle cur fnr h e s absent = absurd (omega arith)
find_and_mark_none zero (suc fuel) n handle cur fnr h e s absent =
    let e' : cur ≡ fnr = omega arith in ground (arith, e')
find_and_mark_none (suc d) (suc fuel) n handle cur fnr h e s absent =
    let ih =
      find_and_mark_none d fuel n handle (cur + 1) fnr (omega arith) (omega arith) s
        (λ i lo hi. absent i (omega arith) hi) in
    ground (arith, load_in n.tasks cur (omega arith), absent cur (omega arith) (omega arith), ih)

-- On a valid node on which a task runs, the removal of a handle that no running task has is taken
-- for the end of the last running task: all that waits first becomes ready, though tasks run.
pub remove_task_stray :
    {n : ResourceNode} (w : World) (handle : ℕ)
    → IsValid n
    → n.first < n.first_not_ready
    → Absent n handle
    → let ready = promoted (waiting n) in
      remove_task n w handle
      ≡ ret (record n { first_not_ready = n.first_not_ready + length ready }, notified_all w ready)
unfolding remove_task
remove_task_stray {n} w handle v busy absent =
    let d = n.first_not_ready - (n.first + 1) in
    let search =
      find_and_mark_none d (num_tasks + 1) n handle (n.first + 1) n.first_not_ready (omega arith)
        (omega arith) (omega arith) (λ i lo hi. absent i (omega arith) hi) in
    let woken =
      wake_lem (n.last - n.first_not_ready) n w (omega arith) v.last_in v.sized v.sound.counted in
    ground (
      arith,
      load_in n.tasks n.first (omega arith),
      absent n.first (omega arith) busy,
      search,
      woken,
    )
