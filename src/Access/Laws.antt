-- ===== src/Access/Laws.antt =====
-- `is_serial_access`, described without its tests.
use rg.Prelude.{◌≡◌, ◌↔◌, ◌≢◌, false, arith}
use rg.Access.{AccessMode, write, is_serial_access}

-- The order of the two accesses does not matter.
pub is_serial_access_sym : (a b : AccessMode) → is_serial_access a b ≡ is_serial_access b a
unfolding is_serial_access
is_serial_access_sym a b = ground arith

-- Two accesses may overlap exactly when they have the same mode and that is not writing.
pub is_serial_access-false_iff :
    (a b : AccessMode) → (is_serial_access a b ≡ false) ↔ ((a ≡ b) × (a ≢ write))
unfolding is_serial_access
is_serial_access-false_iff a b = ground arith

-- Overlapping is passed along: what may overlap a task may overlap all that overlap it.
pub is_serial_access_trans :
    (a b c : AccessMode)
    → is_serial_access a b ≡ false
    → is_serial_access b c ≡ false
    → is_serial_access a c ≡ false
unfolding is_serial_access
is_serial_access_trans a b c p q = ground arith
