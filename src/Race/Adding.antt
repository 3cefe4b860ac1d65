-- ===== src/Race/Adding.antt =====
-- include/ResourceNode.hpp: the steps of the adding thread keep the node in order.
use rg.Prelude.{ℕ, ◌-◌, ◌<◌, ◌≤◌, false, ◌≡◌, ◌≢◌, refl, arith}
use rg.Access.{is_serial_access}
use rg.Access.Laws.{is_serial_access_sym, is_serial_access_trans}
use rg.Race.{
  Mem, Adder, granting, AddMove, store_task, publish, none_waits, none_runs, runs_beside, grant,
}
use rg.Race.Invariant.{MemInv, AdderFits, Grows}

-- The premise of a move.
abbrev Guard : {m m' : Mem} {a a' : Adder} → AddMove m a m' a' → Type 0
Guard {m} (store_task handle _ _ _) = (i : ℕ) → m.first ≤ i → i < m.last → m.handles i ≢ handle
Guard {m} (none_waits {l} _) = m.first_not_ready ≡ l
Guard {m} (none_runs {l} _) = m.first ≡ l
Guard {m} (runs_beside {l} _ _) =
    (m.first ≢ l) × (is_serial_access (m.modes l) (m.modes (l - 1)) ≡ false)
Guard {m} (grant {l} _) = m.first_not_ready ≡ l
Guard _ = Unit

guard : {m m' : Mem} {a a' : Adder} (mv : AddMove m a m' a') → Guard mv
guard (store_task _ _ _ g) = g
guard (none_waits g) = g
guard (none_runs g) = g
guard (runs_beside g h) = (g, h)
guard (grant g) = g
guard _ = tt

pub AddMove-Grows : {m m' : Mem} {a a' : Adder} → AddMove m a m' a' → AdderFits m a → Grows m m'
AddMove-Grows (store_task handle mode g h) f = record {
  first_le = omega arith;
  ready_le = omega arith;
  last_le = omega arith;
  modes_eq = λ i b. ground arith;
  handles_eq = λ i b. ground arith;
  taken_on = λ i b. b;
}
AddMove-Grows mv f = record {
  first_le = omega arith;
  ready_le = ground (arith, guard mv);
  last_le = omega arith;
  modes_eq = λ i b. refl;
  handles_eq = λ i b. refl;
  taken_on = λ i b. b;
}

pub AddMove-first : {m m' : Mem} {a a' : Adder} → AddMove m a m' a' → m'.first ≤ m.first
AddMove-first (store_task handle mode g h) = omega arith
AddMove-first mv = omega arith

module _ {m : Mem} (inv : MemInv m) where
  open inv use {running, waiting, room, distinct, together, passed}

  -- Once the entry before it is ready and runs beside it, a ready entry and the new one may overlap.
  beside :
      (l : ℕ)
      → AdderFits m (granting l)
      → m.first_not_ready ≡ l
      → (i : ℕ) → m.first ≤ i
      → i < l
      → is_serial_access (m.modes i) (m.modes l) ≡ false
  beside l f e i a b = ground (
    arith,
    together i (l - 1),
    is_serial_access_sym (m.modes l) (m.modes (l - 1)),
    is_serial_access_trans (m.modes i) (m.modes (l - 1)) (m.modes l),
  )

  AddMove-together :
      {m' : Mem} {a a' : Adder}
      → AddMove m a m' a'
      → AdderFits m a
      → (i j : ℕ) → m'.first ≤ i
      → i < j
      → j < m'.first_not_ready
      → is_serial_access (m'.modes i) (m'.modes j) ≡ false
  AddMove-together (grant {l} g) f i j a b c = ground (arith, together i j, beside l f g i)
  AddMove-together mv f i j a b c = ground (arith, together i j)

  AddMove-distinct :
      {m' : Mem} {a a' : Adder}
      → AddMove m a m' a'
      → AdderFits m a
      → (i j : ℕ) → m'.first ≤ i
      → i < j
      → j < m'.last
      → m'.handles i ≢ m'.handles j
  AddMove-distinct (publish {l}) (e, d, f) i j c a b = ground (arith, distinct i j, f i)
  AddMove-distinct mv f i j c a b = ground (arith, distinct i j)

  pub AddMove-MemInv : {m' : Mem} {a a' : Adder} → AddMove m a m' a' → AdderFits m a → MemInv m'
  AddMove-MemInv (grant g) f = record {
    running = omega arith;
    waiting = omega arith;
    room = ground arith;
    distinct = distinct;
    together = AddMove-together (grant g) f;
    passed = passed;
  }
  AddMove-MemInv mv f = record {
    running = running;
    waiting = omega arith;
    room = ground arith;
    distinct = AddMove-distinct mv f;
    together = AddMove-together mv f;
    passed = passed;
  }

  pub AddMove-AdderFits :
      {m' : Mem} {a a' : Adder} → AddMove m a m' a' → AdderFits m a → AdderFits m' a'
  AddMove-AdderFits (store_task handle mode g h) f = (refl, g, λ i c b. ground (arith, h i c b))
  AddMove-AdderFits mv f = ground (arith, guard mv)
