-- ===== src/Race/Invariant.antt =====
-- include/ResourceNode.hpp: what holds of the node between any two steps of its threads.
use rg.Prelude.{ℕ, ◌+◌, ◌-◌, ◌<◌, ◌≤◌, true, false, ◌≡◌, ◌≢◌, ◌⊎◌, Option, none, some, refl, arith}
use rg.Access.{is_serial_access}
use rg.Node.{num_tasks}
use rg.Race.{
  Mem, Adder, resting, stored, published, comparing, granting, lowering, Remover, outside, entering,
  heading, skipping, skipped, advancing, searching, scanning, marking, passing, waking, looking,
  claiming, lowering_first, round, walking, claiming_next, lowering_next, closing,
}

-- The order of the indices and what the entries below them are.
pub record MemInv (m : Mem) : Type 0 where
  pub running : m.first ≤ m.first_not_ready
  pub waiting : m.first_not_ready ≤ m.last
  pub room : m.last < num_tasks
  pub distinct : (i j : ℕ) → m.first ≤ i → i < j → j < m.last → m.handles i ≢ m.handles j
  pub together :
      (i j : ℕ)
      → m.first ≤ i
      → i < j
      → j < m.first_not_ready
      → is_serial_access (m.modes i) (m.modes j) ≡ false
  pub passed : (i : ℕ) → i < m.first → m.taken i ≡ true

-- The entry `p` is ready, its removal has begun and has not moved `first` past it.
abbrev pub IsStanding : Mem → ℕ → Type 0
IsStanding m p = (m.first ≤ p) × (p < m.first_not_ready) × (m.taken p ≡ true)

-- No entry from `c` on and before `p` has its handle.
abbrev pub NoneBetween : Mem → ℕ → ℕ → Type 0
NoneBetween m c p = (i : ℕ) → c ≤ i → i < p → m.handles i ≢ m.handles p

-- The entries behind `c` and before `f` may run beside `c`, before which all have left.
abbrev pub Overlap : Mem → ℕ → ℕ → Type 0
Overlap m c f =
    (c < f)
    × (c ≤ m.first)
    × ((i : ℕ) → c < i → i < f → is_serial_access (m.modes c) (m.modes i) ≡ false)

-- What the variables of the adding thread say about the node.
abbrev pub AdderFits : Mem → Adder → Type 0
AdderFits m resting = Unit
AdderFits m (stored l) =
    (l ≡ m.last) × (l < num_tasks - 1) × ((i : ℕ) → m.first ≤ i → i < l → m.handles i ≢ m.handles l)
AdderFits m (published l) = m.last ≡ l + 1
AdderFits m (comparing l) = (m.last ≡ l + 1) × (l ≤ m.first_not_ready)
AdderFits m (granting l) =
    (m.last ≡ l + 1)
    × ((l ≤ m.first) ⊎ ((0 < l) × (is_serial_access (m.modes l) (m.modes (l - 1)) ≡ false)))
AdderFits m (lowering l) = l < m.first_not_ready

-- What the variables of a removing thread say about the node.
abbrev pub RemoverFits : Mem → Remover → Type 0
RemoverFits m outside = Unit
RemoverFits m (entering p) = IsStanding m p
RemoverFits m (heading p) = (m.first ≡ p) × IsStanding m p
RemoverFits m (skipping b c) = c ≤ m.first
RemoverFits m (skipped b c) = c ≤ m.first
RemoverFits m (advancing b c) = c ≤ m.first
RemoverFits m (searching p c) = IsStanding m p × (c ≤ p) × NoneBetween m c p
RemoverFits m (scanning p c f) =
    IsStanding m p × (c ≤ p) × (p < f) × (f ≤ m.first_not_ready) × NoneBetween m c p
RemoverFits m (marking p c) = IsStanding m p × (c ≡ p)
RemoverFits m (passing p c) = IsStanding m p × (c ≡ p)
RemoverFits m (waking c) = c ≤ m.first
RemoverFits m (looking c) = c ≤ m.first
RemoverFits m (claiming f) = (f ≤ m.first) × (f < m.last)
RemoverFits m (lowering_first f) = (f ≤ m.first) × (f < m.first_not_ready)
RemoverFits m (round c f) = Overlap m c f × (f ≤ m.first_not_ready)
RemoverFits m (walking c f l e) = Overlap m c f × (f ≤ m.first_not_ready) × (f ≤ l) × (l ≤ m.last)
RemoverFits m (claiming_next c f l) = Overlap m c (f + 1) × (f < l) × (l ≤ m.last)
RemoverFits m (lowering_next c f l) =
    Overlap m c (f + 1) × (f < m.first_not_ready) × (f < l) × (l ≤ m.last)
RemoverFits m (closing c f l) = Overlap m c f × (f ≤ m.first_not_ready)

-- The entry that a removing thread stands at.
abbrev pub standing : Remover → Option ℕ
standing (entering p) = some p
standing (heading p) = some p
standing (searching p _) = some p
standing (scanning p _ _) = some p
standing (marking p _) = some p
standing (passing p _) = some p
standing _ = none

-- What the steps of one thread leave the others.
pub record Grows (m m' : Mem) : Type 0 where
  pub first_le : m.first ≤ m'.first
  pub ready_le : m.first_not_ready ≤ m'.first_not_ready
  pub last_le : m.last ≤ m'.last
  pub modes_eq : (i : ℕ) → i < m.last → m'.modes i ≡ m.modes i
  pub handles_eq : (i : ℕ) → i < m.last → m'.handles i ≡ m.handles i
  pub taken_on : (i : ℕ) → m.taken i ≡ true → m'.taken i ≡ true

pub standing-IsStanding :
    (m : Mem) (r : Remover) (p : ℕ) → standing r ≡ some p → RemoverFits m r → IsStanding m p
standing-IsStanding m r p e f = ground arith

module _ {m m' : Mem} (grows : Grows m m') where
  open grows use {first_le, ready_le, last_le, modes_eq, handles_eq, taken_on}

  Overlap-Grows : (c f : ℕ) → f ≤ m.last → Overlap m c f → Overlap m' c f
  Overlap-Grows c f b (lt, le, o) =
      (lt, omega arith, λ i x y. ground (arith, modes_eq c, modes_eq i, o i x y))

  IsStanding-Grows : (p : ℕ) → m'.first ≤ p → IsStanding m p → IsStanding m' p
  IsStanding-Grows p b f = ground (arith, taken_on p)

  NoneBetween-Grows : (c p : ℕ) → p < m.last → NoneBetween m c p → NoneBetween m' c p
  NoneBetween-Grows c p b n i x y = ground (arith, handles_eq p, handles_eq i, n i x y)

  -- What a thread has read stays true while other threads go on.
  pub RemoverFits-Grows :
      (r : Remover)
      → MemInv m
      → ((p : ℕ) → standing r ≡ some p → m'.first ≤ p)
      → RemoverFits m r
      → RemoverFits m' r
  RemoverFits-Grows (entering p) inv h f = IsStanding-Grows p (h p refl) f
  RemoverFits-Grows (heading p) inv h (e, f) =
      let b : m'.first ≤ p = h p refl in (omega arith, IsStanding-Grows p b f)
  RemoverFits-Grows (searching p c) inv h (f, b, n) =
      let low : p < m.last = omega (arith, inv.waiting) in
      (IsStanding-Grows p (h p refl) f, b, NoneBetween-Grows c p low n)
  RemoverFits-Grows (scanning p c l) inv h (f, b, d, e, n) =
      let low : p < m.last = omega (arith, inv.waiting) in
      (IsStanding-Grows p (h p refl) f, b, d, omega arith, NoneBetween-Grows c p low n)
  RemoverFits-Grows (marking p c) inv h (f, e) = (IsStanding-Grows p (h p refl) f, e)
  RemoverFits-Grows (passing p c) inv h (f, e) = (IsStanding-Grows p (h p refl) f, e)
  RemoverFits-Grows (round c f) inv h (o, b) =
      let w : m.first_not_ready ≤ m.last = inv.waiting in
      (Overlap-Grows c f (omega arith) o, omega arith)
  RemoverFits-Grows (walking c f l e) inv h (o, b, d, g) =
      let w : m.first_not_ready ≤ m.last = inv.waiting in
      (Overlap-Grows c f (omega arith) o, omega arith, d, omega arith)
  RemoverFits-Grows (claiming_next c f l) inv h (o, b, d) =
      (Overlap-Grows c (f + 1) (omega arith) o, b, omega arith)
  RemoverFits-Grows (lowering_next c f l) inv h (o, b, d, g) =
      (Overlap-Grows c (f + 1) (omega arith) o, omega arith, d, omega arith)
  RemoverFits-Grows (closing c f l) inv h (o, b) =
      let w : m.first_not_ready ≤ m.last = inv.waiting in
      (Overlap-Grows c f (omega arith) o, omega arith)
  RemoverFits-Grows r inv h f = ground arith
