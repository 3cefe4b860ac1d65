-- ===== src/Random.antt =====
-- include/random.hpp: the generator that a worker draws its victims from.
pub mod Nonzero
use Prim.Native.Nat.{bit_xor}
use rg.Prelude.{ℕ, zero, suc, ◌*◌, ◌/◌, ◌%◌, ◌^◌, ◌==◌, if◌then◌else◌}

pub record XorShift : Type 0 where
  pub state : ℕ

-- The shifts of a `uint32_t`.
abbrev pub shift_left : ℕ → ℕ → ℕ
shift_left x k = x * 2 ^ k % 2 ^ 32

abbrev pub shift_right : ℕ → ℕ → ℕ
shift_right x k = x / 2 ^ k

-- The constructor from a seed. 3735928559 is `0xdead'beef`.
unfoldable pub from_seed : ℕ → XorShift
from_seed seed = record { state = if seed == 0 then 3735928559 else seed }

-- `operator()`: the number drawn, and the generator after it.
unfoldable pub draw : XorShift → ℕ × XorShift
draw rng =
    let x0 = rng.state in
    let x1 = bit_xor x0 (shift_left x0 13) in
    let x2 = bit_xor x1 (shift_right x1 17) in
    let x3 = bit_xor x2 (shift_left x2 5) in (x3, record { state = x3 })

-- The number that the call after `n` others draws.
unfoldable pub draw_nth : XorShift → ℕ → ℕ
unfolding draw
draw_nth rng zero = (draw rng).0
draw_nth rng (suc n) = draw_nth (draw rng).1 n
