-- ===== src/Race/Removing.antt =====
-- include/ResourceNode.hpp: the steps of a removing thread keep the node in order.
use rg.Prelude.{ℕ, ◌+◌, ◌<◌, ◌≤◌, false, ◌≡◌, ◌≢◌, ◌⊎◌, some, refl, arith}
use rg.Access.{is_serial_access}
use rg.Access.Laws.{is_serial_access_sym, is_serial_access_trans}
use rg.Race.{
  Mem, Adder, Remover, RemoveMove, enter, is_head, is_behind, advance_head, scan_end, scan_hit,
  scan_miss, skip_win, pass_win, some_wait, claim, walk_parallel, claim_next,
}
use rg.Race.Invariant.{NoneBetween, AdderFits, MemInv, Overlap, RemoverFits, standing, Grows}

-- The premise of a move.
abbrev pub Guard : {m m' : Mem} {r r' : Remover} → RemoveMove m r m' r' → Type 0
Guard {m} (enter p _ _) = (p < m.first_not_ready) × (m.taken p ≡ false)
Guard {m} (skip_win {c} _) = m.first ≡ c + 1
Guard {m} (pass_win {c} _) = m.first ≡ c + 1
Guard {m} (claim {f} _) = m.first_not_ready ≡ f
Guard {m} (claim_next {f} _) = m.first_not_ready ≡ f
Guard (scan_end {c} {f} _) = c ≡ f
Guard {m} (some_wait {c} _) = m.last ≢ c
Guard {m} (walk_parallel {c} {f} {l} _ _) =
    (f ≢ l) × (is_serial_access (m.modes c) (m.modes f) ≡ false)
Guard _ = Unit

pub guard : {m m' : Mem} {r r' : Remover} (mv : RemoveMove m r m' r') → Guard mv
guard (enter p g h) = (g, h)
guard (skip_win g) = g
guard (pass_win g) = g
guard (claim g) = g
guard (claim_next g) = g
guard (scan_end g) = g
guard (some_wait g) = g
guard (walk_parallel g h) = (g, h)
guard _ = tt

pub RemoveMove-Grows :
    {m m' : Mem} {r r' : Remover} → RemoveMove m r m' r' → RemoverFits m r → Grows m m'
RemoveMove-Grows (enter p g h) f = record {
  first_le = omega arith;
  ready_le = omega arith;
  last_le = omega arith;
  modes_eq = λ i b. refl;
  handles_eq = λ i b. refl;
  taken_on = λ i b. ground arith;
}
RemoveMove-Grows mv f = record {
  first_le = ground (arith, guard mv);
  ready_le = ground (arith, guard mv);
  last_le = ground (arith, guard mv);
  modes_eq = λ i b. refl;
  handles_eq = λ i b. refl;
  taken_on = λ i b. b;
}

-- Only the step of the thread that stands at `first` moves it.
pub RemoveMove-first :
    {m m' : Mem} {r r' : Remover} (q : ℕ)
    → RemoveMove m r m' r'
    → RemoverFits m r
    → standing r ≢ some q
    → m.first ≤ q
    → m'.first ≤ q
RemoveMove-first q (advance_head) f n h = ground arith
RemoveMove-first q mv f n h = ground (arith, guard mv)

pub RemoveMove-standing :
    {m m' : Mem} {r r' : Remover} (q : ℕ)
    → RemoveMove m r m' r'
    → standing r' ≡ some q
    → (standing r ≡ some q) ⊎ (m.taken q ≡ false)
RemoveMove-standing q (enter p g h) e = ground arith
RemoveMove-standing q mv e = ground arith

pub RemoveMove-AdderFits :
    {m m' : Mem} {r r' : Remover} (a : Adder)
    → RemoveMove m r m' r'
    → RemoverFits m r
    → AdderFits m a
    → AdderFits m' a
RemoveMove-AdderFits a (enter p g h) f fits = ground arith
RemoveMove-AdderFits a mv f fits = ground (arith, guard mv)

module _ {m : Mem} (inv : MemInv m) where
  open inv use {running, waiting, room, distinct, together, passed}

  handle-injective :
      (i j : ℕ)
      → m.first ≤ i
      → m.first ≤ j
      → i < m.last
      → j < m.last
      → m.handles i ≡ m.handles j
      → i ≡ j
  handle-injective i j a b c d e = ground (arith, distinct i j, distinct j i)

  -- A ready entry from `c` on and the entry `f` may overlap.
  beside :
      (c f : ℕ)
      → Overlap m c (f + 1)
      → m.first_not_ready ≡ f
      → (i : ℕ) → m.first ≤ i
      → i < f
      → is_serial_access (m.modes i) (m.modes f) ≡ false
  beside c f o e i a b = ground (
    arith,
    o.2 i,
    o.2 f,
    is_serial_access_sym (m.modes c) (m.modes i),
    is_serial_access_trans (m.modes i) (m.modes c) (m.modes f),
  )

  pub RemoveMove-together :
      {m' : Mem} {r r' : Remover}
      → RemoveMove m r m' r'
      → RemoverFits m r
      → (i j : ℕ) → m'.first ≤ i
      → i < j
      → j < m'.first_not_ready
      → is_serial_access (m'.modes i) (m'.modes j) ≡ false
  RemoveMove-together (claim g) f i j a b c = ground (arith, together i j)
  RemoveMove-together (claim_next {c} {f} g) o i j a b d =
      ground (arith, together i j, beside c f o.0 g i)
  RemoveMove-together mv f i j a b c = ground (arith, guard mv, together i j)

  pub RemoveMove-MemInv :
      {m' : Mem} {r r' : Remover} → RemoveMove m r m' r' → RemoverFits m r → MemInv m'
  RemoveMove-MemInv (enter p g h) f = record {
    running = running;
    waiting = waiting;
    room = room;
    distinct = distinct;
    together = together;
    passed = λ i b. ground (arith, passed i b);
  }
  RemoveMove-MemInv mv f =
      let grows = RemoveMove-Grows mv f in
      record {
        running = ground (arith, guard mv);
        waiting = ground (arith, guard mv);
        room = room;
        distinct = λ i j b. distinct i j (omega (arith, grows.first_le));
        together = RemoveMove-together mv f;
        passed = λ i b. ground (arith, guard mv, passed i);
      }

  pub RemoveMove-RemoverFits :
      {m' : Mem} {r r' : Remover} → RemoveMove m r m' r' → RemoverFits m r → RemoverFits m' r'
  RemoveMove-RemoverFits (enter p g h) f = ground (arith, passed p)
  RemoveMove-RemoverFits (is_head {p} e) f = ground (arith, handle-injective m.first p)
  RemoveMove-RemoverFits (is_behind {p} e) f =
      let none_between : NoneBetween m (m.first + 1) p =
        λ i a b. distinct i p (omega arith) b (omega arith) in
      (f, ground arith, none_between)
  RemoveMove-RemoverFits (scan_hit {p} {c} d e) (s, a, b, g, none_between) =
      ground (arith, none_between c)
  RemoveMove-RemoverFits (scan_miss {p} {c} d e) f = ground arith
  RemoveMove-RemoverFits mv f = ground (arith, guard mv)
