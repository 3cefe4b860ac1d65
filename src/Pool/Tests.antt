-- ===== src/Pool/Tests.antt =====
-- include/ThreadPool.hpp: two workers on queues that are lists.
use rg.Prelude.{false, true, ℕ, ◌+◌, List, [], ◌∷◌, ◌++◌, Option, none, some, ◌≡◌, refl, ap}
use rg.Barrier.{emplace_back}
use rg.Barrier.Tests.{busy, idle}
use rg.Pool.{Deque, Pool, main_thread, add_task}
use rg.Pool.Count.{copies, total}
use rg.Pool.Run.{
  testing, clearing, destroyed, Running, new_running, adds, enters, destroys, Steps, no_step,
  one_step,
}
use rg.Pool.Run.Conserved.{balanced-Steps}
use rg.Pool.Run.Stopped.{Stage, stopped-Steps}
use rg.Pool.Run.Destroyed.{destroyed-Steps}

-- The last handle of a list, and the ones before it.
abbrev list_pop : List ℕ → List ℕ × Option ℕ
list_pop [] = ([], none)
list_pop (h ∷ []) = ([], some h)
list_pop (h ∷ k ∷ hs) = let (rest, last) = list_pop (k ∷ hs) in (h ∷ rest, last)

abbrev list_steal : List ℕ → List ℕ × Option ℕ
list_steal [] = ([], none)
list_steal (h ∷ hs) = (hs, some h)

pub list_pop-none : (hs : List ℕ) → (list_pop hs).1 ≡ none → (hs ≡ []) × ((list_pop hs).0 ≡ [])
list_pop-none [] e = (refl, refl)
list_pop-none (h ∷ []) e = cc
list_pop-none (h ∷ k ∷ hs) e = let (nil, _) = list_pop-none (k ∷ hs) e in cc

pub list_pop-some :
    (hs : List ℕ) (x : ℕ) → (list_pop hs).1 ≡ some x → hs ≡ (list_pop hs).0 ++ (x ∷ [])
list_pop-some [] x e = cc
list_pop-some (h ∷ []) x e = cc
list_pop-some (h ∷ k ∷ hs) x e = ap (λ l. h ∷ l) (list_pop-some (k ∷ hs) x e)

pub list_steal-none : (hs : List ℕ) → (list_steal hs).1 ≡ none → (list_steal hs).0 ≡ hs
list_steal-none [] e = refl
list_steal-none (h ∷ hs) e = cc

pub list_steal-some :
    (hs : List ℕ) (x : ℕ) → (list_steal hs).1 ≡ some x → hs ≡ x ∷ (list_steal hs).0
list_steal-some [] x e = cc
list_steal-some (h ∷ hs) x e = cc

abbrev pub list_deque : Deque (List ℕ)
list_deque = record {
  empty = [];
  emplace = λ h hs. hs ++ (h ∷ []);
  pop = list_pop;
  steal = list_steal;
  content = λ hs. hs;
  content-empty = refl;
  content-emplace = λ h hs. refl;
  pop_none = list_pop-none;
  pop_some = list_pop-some;
  steal_none = list_steal-none;
  steal_some = list_steal-some;
}

abbrev pub two_workers : Pool (List ℕ)
two_workers = record {
  thread_queues = [] ∷ (5 ∷ 6 ∷ []) ∷ [];
  master_queue = [];
  barrier_queue = busy ∷ idle ∷ [];
}

-- A pool of two threads: the main thread adds a handle, a coroutine waits at a barrier and is put into
-- the barrier queue, and the destructor begins.
abbrev started : Running (List ℕ)
started = new_running list_deque 2

abbrev one_added : Running (List ℕ)
one_added = record started { pool = record started.pool { master_queue = 7 ∷ [] }; added = 7 ∷ [] }

abbrev one_waiting : Running (List ℕ)
one_waiting = record one_added {
  pool = record one_added.pool { barrier_queue = busy ∷ [] };
  added = 7 ∷ 7 ∷ [];
}

abbrev ending : Running (List ℕ)
ending = record one_waiting { source_stopped = true; lifetime = clearing 0 }

to_ending : Steps list_deque started ending
unfolding new_running add_task emplace_back
to_ending =
    one_step started one_added ending (adds started main_thread 7 one_added.pool (λ e. cc) refl) (
      one_step one_added one_waiting ending (enters one_added busy (λ e. cc))
        (one_step one_waiting ending ending (destroys one_waiting refl) (no_step ending)))

balanced-Steps_example : total list_deque 7 ending.pool + copies 7 [] ≡ copies 7 (7 ∷ 7 ∷ [])
unfolding new_running
balanced-Steps_example = balanced-Steps list_deque 7 2 ending to_ending

stopped-Steps_example : Stage 1 (record { stop_requested = false; phase = testing }) (clearing 0)
unfolding new_running
stopped-Steps_example =
    stopped-Steps list_deque 2 ending 1 (record { stop_requested = false; phase = testing })
      to_ending refl

destroyed-Steps_example :
    (s' : Running (List ℕ)) × Steps list_deque ending s' × (s'.lifetime ≡ destroyed)
destroyed-Steps_example = destroyed-Steps list_deque 2 0 ending to_ending refl
