-- ===== src/Random/Nonzero.antt =====
-- include/random.hpp: the state never gets stuck at 0, and stays a `uint32_t`.
use Prim.Native.Nat.{bit_xor}
use rg.Prelude.{ℕ, zero, suc, ◌^◌, ◌<◌, ◌≢◌, arith}
use rg.Prelude.Bits.{xor_zero, xor_below}
use rg.Random.{XorShift, from_seed, draw, draw_nth, shift_left, shift_right}

-- A shift of more than no bits changes every 32-bit number but 0.
shift_left_13-ne : (x : ℕ) → x < 2 ^ 32 → x ≢ 0 → bit_xor x (shift_left x 13) ≢ 0
shift_left_13-ne x lt pos e = let same = xor_zero x (shift_left x 13) e in omega arith

shift_right_17-ne : (x : ℕ) → x ≢ 0 → bit_xor x (shift_right x 17) ≢ 0
shift_right_17-ne x pos e = let same = xor_zero x (shift_right x 17) e in omega arith

shift_left_5-ne : (x : ℕ) → x < 2 ^ 32 → x ≢ 0 → bit_xor x (shift_left x 5) ≢ 0
shift_left_5-ne x lt pos e = let same = xor_zero x (shift_left x 5) e in omega arith

IsState : ℕ → Type 0
IsState x = (x ≢ 0) × (x < 2 ^ 32)

draw-IsState : (rng : XorShift) → IsState rng.state → IsState (draw rng).0
unfolding draw IsState
draw-IsState rng (pos, lt) =
    let x0 = rng.state in
    let x1 = bit_xor x0 (shift_left x0 13) in
    let x2 = bit_xor x1 (shift_right x1 17) in
    let lt1 : x1 < 2 ^ 32 = xor_below 32 x0 (shift_left x0 13) lt (omega arith) in
    let lt2 : x2 < 2 ^ 32 = xor_below 32 x1 (shift_right x1 17) lt1 (omega arith) in
    let pos1 = shift_left_13-ne x0 lt pos in
    let pos2 = shift_right_17-ne x1 pos1 in
    (shift_left_5-ne x2 lt2 pos2, xor_below 32 x2 (shift_left x2 5) lt2 (omega arith))

draw_nth-IsState : (rng : XorShift) (n : ℕ) → IsState rng.state → IsState (draw_nth rng n)
unfolding draw_nth draw
draw_nth-IsState rng zero s = draw-IsState rng s
draw_nth-IsState rng (suc n) s = draw_nth-IsState (draw rng).1 n (draw-IsState rng s)

from_seed-IsState : (seed : ℕ) → seed < 2 ^ 32 → IsState (from_seed seed).state
unfolding IsState from_seed
from_seed-IsState seed lt = (λ e. ground arith, ground arith)

-- Whatever 32-bit seed a generator starts from, 0 included, none of the numbers that it draws is 0,
-- and each fits in 32 bits.
pub draw_nth-nonzero :
    (seed n : ℕ)
    → seed < 2 ^ 32
    → (draw_nth (from_seed seed) n ≢ 0) × (draw_nth (from_seed seed) n < 2 ^ 32)
unfolding IsState
draw_nth-nonzero seed n lt = draw_nth-IsState (from_seed seed) n (from_seed-IsState seed lt)
