-- ===== src/MathUtils.antt =====
-- include/math_utils.hpp: `modulo`, on values of an unsigned type.
pub mod Remainder
use Prim.Native.Nat.{bit_and}
use rg.Prelude.{ℕ, ◌-◌, ◌%◌, ◌==◌, if◌then◌else◌}

-- `modulo<Modulus>(value)`. The test picks the branch at compile time.
unfoldable pub modulo : ℕ → ℕ → ℕ
modulo modulus value =
    if bit_and modulus (modulus - 1) == 0 then bit_and value (modulus - 1) else value % modulus
