-- ===== src/Barrier.antt =====
-- include/BarrierQueue.hpp: the coroutines that wait at a barrier, and their release.
pub mod Release
pub mod Tests
use rg.Prelude.{
  ℕ, zero, suc, ◌+◌, ◌==◌, if◌then◌else◌, Bool, List, [], ◌∷◌, ◌++◌, length, Option, none, some,
  get_elem?,
}
use rg.Prelude.Exec.{Exec, ret, no_fuel, ◌>>=◌}
use rg.WaitCounter.{sub32}

-- `barrier_tuple`: a coroutine, its counter of owners, and its `coroOutsideTask`.
pub record Entry : Type 0 where
  pub handle : ℕ
  pub use_count_p : ℕ
  pub outside_p : ℕ

-- What a check loads through the pointers of an entry. Other threads write there at any time, and a
-- counter and a flag may be what was there at two different moments.
pub record Seen : Type 0 where
  pub counts : ℕ → ℕ
  pub outside : ℕ → Bool

-- `is_ready`, on what its two loads give.
unfoldable pub is_ready : Seen → Entry → Bool
is_ready seen e = sub32 (seen.counts e.use_count_p) (if seen.outside e.outside_p then 1 else 0) == 1

unfoldable pub emplace_back : List Entry → Entry → List Entry
emplace_back queue e = queue ++ (e ∷ [])

-- `std::vector::erase` of the entry at an index.
unfoldable pub erase : List Entry → ℕ → List Entry
erase [] i = []
erase (e ∷ queue) zero = queue
erase (e ∷ queue) (suc i) = e ∷ erase queue i

-- The loop of `process_and_extract` from the entry at `it` on: the queue that it leaves, and the
-- handles that it gives to `addTask`. `seen` is the memory by the number of the check.
unfoldable pub extract_loop : ℕ → (ℕ → Seen) → ℕ → List Entry → ℕ → Exec (List Entry × List ℕ)
extract_loop zero seen k queue it = no_fuel
extract_loop (suc fuel) seen k queue it = elim (get_elem? queue it) [
  | none ↦ ret (queue, [])
  | some e ↦
      let gone = extract_loop fuel seen (k + 1) (erase queue it) it in
      let stays = extract_loop fuel seen (k + 1) queue (it + 1) in
      if is_ready (seen k) e
      then (do (queue', handles) ← gone; ret (queue', e.handle ∷ handles))
      else stays
]

-- `process_and_extract`
unfoldable pub process_and_extract : (ℕ → Seen) → List Entry → Exec (List Entry × List ℕ)
unfolding extract_loop
process_and_extract seen queue = extract_loop (length queue + 1) seen 0 queue 0
