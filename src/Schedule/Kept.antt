-- ===== src/Schedule/Kept.antt =====
-- include/dispatchTask.hpp, include/barrier.hpp and include/Task.hpp: the invariant along the
-- steps of a program.
use rg.Prelude.{ℕ, ◌++◌, ◌≡◌, refl, sym, subst, ◌∙◌, arith}
use rg.Prelude.Exec.{ret-injective}
use rg.Node.{World, init}
use rg.Node.View.{init-IsValid}
use rg.Schedule.{System, Step, dispatches, barriers, ends, start, Steps, no_step, one_step}
use rg.Schedule.Inv.{Inv}
use rg.Schedule.Entered.{dispatch-Enqueued, barrier-Enqueued}
use rg.Schedule.Dispatched.{system, dispatched-Inv}
use rg.Schedule.Left.{left-Inv}

pub Step-Inv : {N : ℕ} {s t : System} → Step N s t → Inv N s → Inv N t
Step-Inv {N} (dispatches t s s' ts call space run before) i =
    let e = dispatch-Enqueued N t s s' ts i.valid call space run in
    dispatched-Inv N t s s' ts i call e.own e.others e.shown e.listed e.room
Step-Inv {N} (barriers t rs next s s' ts call claims space run ready before) i =
    let e = barrier-Enqueued N t rs next s s' ts i.valid call claims space run ready in
    dispatched-Inv N t s s' ts i call e.own e.others e.shown e.listed e.room
Step-Inv {N} (ends t s s' earlier later apart run) i =
    let (s'', run', i') = left-Inv N s t earlier later i apart in
    let e : s'' ≡ s' = ret-injective (sym run' ∙ run) in
    subst (λ x. Inv N (system x (earlier ++ later))) e i'

Steps-Inv : {N : ℕ} {s t : System} → Steps N s t → Inv N s → Inv N t
Steps-Inv (no_step s) i = i
Steps-Inv (one_step s t u one more) i = Steps-Inv more (Step-Inv one i)

pub start-Inv : (N : ℕ) (w : World) → Inv N (start w)
unfolding init
start-Inv N w = record {
  valid = init-IsValid;
  room = λ j. omega arith;
  in_order = λ j. refl;
  own = tt;
  live = tt;
}

pub Steps-append : {N : ℕ} {s t u : System} → Steps N s t → Steps N t u → Steps N s u
Steps-append (no_step s) more = more
Steps-append (one_step s t u one rest) more = one_step s t _ one (Steps-append rest more)

-- In every state that a program reaches by the steps of `Step`, under the conditions that these
-- have, every node is valid and can take another task, its queue holds the accesses of the
-- unfinished tasks to it in the order in which they were dispatched, and the counter of an
-- unfinished task is the number of its accesses that wait.
pub reachable-Inv : (N : ℕ) (w : World) (s : System) → Steps N (start w) s → Inv N s
reachable-Inv N w s r = Steps-Inv r (start-Inv N w)
