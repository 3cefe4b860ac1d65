-- ===== src/Node/Queue.antt =====
-- What a resource promises, without indices: tasks that run together, and tasks that wait in the
-- order in which they came. `ResourceNode` is shown to implement it.
use rg.Prelude.{
  ◌+◌, ◌-◌, ◌%◌, ◌^◌, ◌==◌, if◌then◌else◌, Bool, true, false, not, ◌&&◌, List, [], ◌∷◌, ◌++◌, ◌≡◌,
  ◌≢◌,
}
use rg.Access.{is_serial_access}
use rg.Node.{TaskAccess, World}

pub record Queue : Type 0 where
  pub running : List TaskAccess
  pub waiting : List TaskAccess

abbrev pub parallel : TaskAccess → TaskAccess → Bool
parallel t u = not (is_serial_access t.access_mode u.access_mode)

-- `t` may run beside every task of the list.
abbrev pub admits : List TaskAccess → TaskAccess → Bool
admits [] t = true
admits (r ∷ rs) t = parallel t r && admits rs t

-- The longest start of the list that may run beside `t`, and what is behind it.
abbrev pub parallel_prefix : TaskAccess → List TaskAccess → List TaskAccess
parallel_prefix t [] = []
parallel_prefix t (u ∷ us) = if parallel t u then u ∷ parallel_prefix t us else []

abbrev pub parallel_rest : TaskAccess → List TaskAccess → List TaskAccess
parallel_rest t [] = []
parallel_rest t (u ∷ us) = if parallel t u then parallel_rest t us else u ∷ us

-- Whether a new task is ready at once, and where it goes.
abbrev pub starts : Queue → TaskAccess → Bool
starts q t = elim q.waiting [ [] ↦ admits q.running t | w ∷ ws ↦ false ]

unfoldable pub enqueue : Queue → TaskAccess → Queue
enqueue q t =
    if starts q t
    then record q { running = q.running ++ (t ∷ []) }
    else record q { waiting = q.waiting ++ (t ∷ []) }

-- Nothing runs: the first waiting task becomes ready, with all that may run beside it.
abbrev pub promoted : List TaskAccess → List TaskAccess
promoted [] = []
promoted (w ∷ ws) = w ∷ parallel_prefix w ws

abbrev pub left_waiting : List TaskAccess → List TaskAccess
left_waiting [] = []
left_waiting (w ∷ ws) = parallel_rest w ws

unfoldable pub promote : List TaskAccess → Queue
promote ws = record { running = promoted ws; waiting = left_waiting ws }

-- The oldest running task ends. The next ones start when it was the last one that ran.
unfoldable pub finish_from : List TaskAccess → List TaskAccess → Queue
finish_from [] ws = record { running = []; waiting = ws }
finish_from (r ∷ []) ws = promote ws
finish_from (r ∷ s ∷ rs) ws = record { running = s ∷ rs; waiting = ws }

abbrev pub finish : Queue → Queue
finish q = finish_from q.running q.waiting

-- The tasks that the end of the oldest running task lets start.
unfoldable pub started_from : List TaskAccess → List TaskAccess → List TaskAccess
started_from [] ws = []
started_from (r ∷ []) ws = promoted ws
started_from (r ∷ s ∷ rs) ws = []

abbrev pub started : Queue → List TaskAccess
started q = started_from q.running q.waiting

-- The memory after the counter of a task went down by one.
abbrev pub counted_down : World → TaskAccess → World
counted_down w t = record w {
  counters = λ q.
      if t.wait_counter_p == q
      then (w.counters t.wait_counter_p + 2 ^ 32 - 1) % 2 ^ 32
      else w.counters q;
}

-- A waiting task became ready: its counter is one lower, and its handle is with the pool if that
-- was the last resource that it waited for.
unfoldable pub notified : World → TaskAccess → World
notified w t =
    let w' = counted_down w t in
    if w.counters t.wait_counter_p == 1
    then record w' { added = w.added ++ (t.handle ∷ []) }
    else w'

unfoldable pub notified_all : World → List TaskAccess → World
notified_all w [] = w
notified_all w (t ∷ ts) = notified_all (notified w t) ts

-- The tasks that run may all run together.
abbrev pub Together : List TaskAccess → Type 0
Together [] = Unit
Together (r ∷ rs) = (admits rs r ≡ true) × Together rs

-- The first waiting task has to wait. In particular nothing waits when nothing runs.
abbrev pub Blocked : List TaskAccess → List TaskAccess → Type 0
Blocked rs [] = Unit
Blocked rs (w ∷ ws) = admits rs w ≡ false

-- The tasks have a wait counter.
abbrev pub Counted : List TaskAccess → Type 0
Counted [] = Unit
Counted (t ∷ ts) = (t.wait_counter_p ≢ 0) × Counted ts

pub record IsSound (q : Queue) : Type 0 where
  pub together : Together q.running
  pub blocked : Blocked q.running q.waiting
  pub counted : Counted q.waiting
