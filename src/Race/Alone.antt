-- ===== src/Race/Alone.antt =====
-- include/ResourceNode.hpp: a call of `remove_task` while the other threads rest.
use rg.Prelude.{ℕ, zero, suc, ◌+◌, ◌*◌, ◌<◌, ◌≤◌, ◌≢◌, arith}
use rg.Node.{num_tasks}
use rg.Race.Progress.{steps_left, RemoveMove-steps_left, next_move}
use rg.Race.{Mem, Remover, outside, RemoveMove}
use rg.Race.Invariant.{MemInv, RemoverFits}
use rg.Race.System.{System, Reach}
use rg.Race.Exclusion.{Inv, Reach-Inv}
use rg.Race.Removing.{RemoveMove-MemInv, RemoveMove-RemoverFits}

-- Steps of one thread from within its call on, no other thread making one.
pub data Run : Mem → Remover → ℕ → Mem → Remover → Type 0 where
  stays : {m : Mem} {r : Remover} → Run m r 0 m r
  moves :
      {m m' m'' : Mem} {r r' r'' : Remover} {n : ℕ}
      → r ≢ outside
      → RemoveMove m r m' r'
      → Run m' r' n m'' r''
      → Run m r (suc n) m'' r''

Run-steps_left :
    {m m' : Mem} {r r' : Remover} {n : ℕ}
    → Run m r n m' r'
    → MemInv m
    → RemoverFits m r
    → MemInv m' × RemoverFits m' r' × (n + steps_left m' r' ≤ steps_left m r)
Run-steps_left stays inv f = (inv, f, omega arith)
Run-steps_left (moves h mv run) inv f =
    let (inv', f', le) =
      Run-steps_left run (RemoveMove-MemInv inv mv f) (RemoveMove-RemoverFits inv mv f) in
    (inv', f', omega (arith, RemoveMove-steps_left inv mv h f))

finish :
    (fuel : ℕ) (m : Mem) (r : Remover)
    → MemInv m
    → RemoverFits m r
    → steps_left m r ≤ fuel
    → (m' : Mem) × ((n : ℕ) × (n ≤ steps_left m r) × Run m r n m' outside)
finish fuel m outside inv f le = (m, (0, omega arith, stays))
finish zero m r inv f le = absurd (ground arith)
finish (suc fuel) m r inv f le =
    let (m', (r', mv)) = next_move inv r (ground arith) in
    let lt : steps_left m' r' < steps_left m r = RemoveMove-steps_left inv mv (ground arith) f in
    let (m'', (n, b, run)) =
      finish fuel m' r' (RemoveMove-MemInv inv mv f) (RemoveMove-RemoverFits inv mv f)
        (omega arith) in
    (m'', (suc n, omega arith, moves {m'' = m''} {n = n} (ground arith) mv run))

steps_left-le :
    {m : Mem} (r : Remover) → MemInv m → RemoverFits m r → steps_left m r ≤ 3 * num_tasks + 4
steps_left-le r inv f = ground (arith, inv.running, inv.waiting, inv.room)

-- In every reachable state of a node, a thread that is inside `remove_task` returns after at most
-- 3076 steps when the other threads make none: wherever such a run has come to, it goes on to the
-- end of the call within that limit, so no step is missing and no loop is endless.
pub alone-returns :
    {s : System} {n : ℕ} {m : Mem} {r : Remover} (k : ℕ)
    → Reach s
    → Run s.mem (s.removers k) n m r
    → (m' : Mem) × ((n' : ℕ) × (n + n' ≤ 3 * num_tasks + 4) × Run m r n' m' outside)
alone-returns {s} {n} {m} {r} k reach run =
    let inv : Inv s = Reach-Inv reach in
    let (inv', f, le) = Run-steps_left run inv.mem_inv (inv.remover_fits k) in
    let (m', (n', b, rest)) = finish (steps_left m r) m r inv' f (omega arith) in
    (m', (n', omega (arith, steps_left-le (s.removers k) inv.mem_inv (inv.remover_fits k)), rest))
