-- ===== src/Barrier/Tests.antt =====
-- include/BarrierQueue.hpp: two waiting coroutines, one of them with no child left.
use rg.Prelude.{ℕ, ◌==◌, if◌then◌else◌, true, [], ◌∷◌, ◌≡◌, refl}
use rg.Prelude.Exec.{ret}
use rg.Barrier.{Entry, Seen, is_ready, erase, process_and_extract}
use rg.Barrier.Release.{waiting, released, process_and_extract_lem}

abbrev pub busy : Entry
busy = record { handle = 7; use_count_p = 7; outside_p = 7 }

abbrev pub idle : Entry
idle = record { handle = 8; use_count_p = 8; outside_p = 8 }

abbrev pub memory : ℕ → Seen
memory _ = record { counts = λ p. if p == 7 then 3 else 2; outside = λ _. true }

process_and_extract_lem_example :
    process_and_extract memory (busy ∷ idle ∷ [])
    ≡ ret (waiting memory 0 (busy ∷ idle ∷ []), released memory 0 (busy ∷ idle ∷ []))
process_and_extract_lem_example = process_and_extract_lem memory (busy ∷ idle ∷ [])

idle_released : process_and_extract memory (busy ∷ idle ∷ []) ≡ ret (busy ∷ [], 8 ∷ [])
unfolding process_and_extract is_ready erase
idle_released = refl
