-- ===== src/Prelude/Bits.antt =====
-- Bitwise operations by the lowest digit, masks of low and of high bits, and when `xor` is 0.
use Prim.Native.Nat.{
  ℕ, zero, suc, ◌+◌, ◌-◌, ◌*◌, ◌/◌, ◌%◌, ◌^◌, ◌≤◌, ◌<◌, min, bit_and, bit_xor, digits, bitwise,
  differ, bit_and-bitwise, bit_xor-bitwise,
}
use mathlib.Core.Path.{◌≡◌, refl, ap, ◌∙◌}
use native.Mathlib.Nat.{pow-suc, one-le-pow, mod-lt, mod-eq_of_lt, add-mul-mod_self_right}
use native.Mathlib.Nat.{mod-add-div'}
use native.Mathlib.Omega.{arith}

module _ (tail : ℕ → ℕ) (digit : ℕ → ℕ → ℕ) where
  -- One more unit of fuel than the first operand changes nothing.
  digits_more : (n a b : ℕ) → a ≤ n → digits tail digit (suc n) a b ≡ digits tail digit n a b
  digits_more zero zero b h = refl
  digits_more zero (suc a) b h = absurd (omega arith)
  digits_more (suc n) zero b h = refl
  digits_more (suc n) (suc a) b h =
      ap (λ r. r * 2 + digit (suc a % 2) (b % 2)) (digits_more n (suc a / 2) (b / 2) (omega arith))

  -- Any fuel from the first operand on gives the same number.
  digits_enough : (extra a b : ℕ) → digits tail digit (extra + a) a b ≡ bitwise tail digit a b
  digits_enough zero a b = let e : 0 + a ≡ a = omega arith in ap (λ n. digits tail digit n a b) e
  digits_enough (suc extra) a b =
      let e : suc extra + a ≡ suc (extra + a) = omega arith in
      ap (λ n. digits tail digit n a b) e
      ∙ digits_more (extra + a) a b (omega arith)
      ∙ digits_enough extra a b

  bitwise_step :
      (a b : ℕ)
      → bitwise tail digit (suc a) b
        ≡ bitwise tail digit (suc a / 2) (b / 2) * 2 + digit (suc a % 2) (b % 2)
  bitwise_step a b =
      let half = suc a / 2 in
      let e : a ≡ a - half + half = omega arith in
      ap (λ r. r * 2 + digit (suc a % 2) (b % 2))
        (ap (λ n. digits tail digit n half (b / 2)) e ∙ digits_enough (a - half) half (b / 2))

-- The lowest digit of `and` and of `xor`, and the digits above it.
pub and_low : (a b : ℕ) → bit_and a b ≡ bit_and (a / 2) (b / 2) * 2 + min (a % 2) (b % 2)
and_low zero b = omega (arith, bit_and-bitwise 0 b, bit_and-bitwise 0 (b / 2))
and_low (suc a) b = omega (
  arith,
  bit_and-bitwise (suc a) b,
  bit_and-bitwise (suc a / 2) (b / 2),
  bitwise_step (λ _. 0) min a b,
)

xor_low :
    (a b : ℕ) → bit_xor (suc a) b ≡ bit_xor (suc a / 2) (b / 2) * 2 + differ (suc a % 2) (b % 2)
xor_low a b = omega (
  arith,
  bit_xor-bitwise (suc a) b,
  bit_xor-bitwise (suc a / 2) (b / 2),
  bitwise_step (λ y. y) differ a b,
)

differ-zero : (x y : ℕ) → differ x y ≡ 0 → x ≡ y
differ-zero zero y h = omega arith
differ-zero (suc x) zero h = absurd (omega arith)
differ-zero (suc x) (suc y) h = ap suc (differ-zero x y h)

-- `xor` is 0 of equal numbers only.
xor_zero_below : (n a b : ℕ) → a ≤ n → bit_xor a b ≡ 0 → a ≡ b
xor_zero_below n zero b h e = omega (arith, bit_xor-bitwise 0 b)
xor_zero_below zero (suc a) b h e = absurd (omega arith)
xor_zero_below (suc n) (suc a) b h e =
    let same = xor_zero_below n (suc a / 2) (b / 2) (omega arith) (omega (arith, xor_low a b)) in
    let digit = differ-zero (suc a % 2) (b % 2) (omega (arith, xor_low a b)) in omega arith

pub xor_zero : (a b : ℕ) → bit_xor a b ≡ 0 → a ≡ b
xor_zero a b e = xor_zero_below a a b (omega arith) e

-- The remainder by twice a number, from the half.
mod_double : (a p : ℕ) → 0 < p → a % (p * 2) ≡ a / 2 % p * 2 + a % 2
mod_double a p pos =
    let q = a / 2 / p in
    let low = a / 2 % p * 2 + a % 2 in
    let whole : a ≡ low + q * (p * 2) = omega (arith, mod-add-div' (a / 2) p) in
    ap (λ n. n % (p * 2)) whole
    ∙ add-mul-mod_self_right low q (p * 2)
    ∙ mod-eq_of_lt (omega (arith, mod-lt (a / 2) pos))

and-zero_below : (n a : ℕ) → a ≤ n → bit_and a 0 ≡ 0
and-zero_below n zero h = bit_and-bitwise 0 0
and-zero_below zero (suc a) h = absurd (omega arith)
and-zero_below (suc n) (suc a) h =
    omega (arith, and_low (suc a) 0, and-zero_below n (suc a / 2) (omega arith))

pub pow_pos : (w : ℕ) → 0 < 2 ^ w
pow_pos w = one-le-pow w 2 (omega arith)

mod_pow-suc : (w a : ℕ) → a % 2 ^ suc w ≡ a / 2 % 2 ^ w * 2 + a % 2
mod_pow-suc w a = ap (λ n. a % n) (pow-suc 2 w) ∙ mod_double a (2 ^ w) (pow_pos w)

-- A mask of the `w` low bits is the remainder.
pub and_low_mask : (w a : ℕ) → bit_and a (2 ^ w - 1) ≡ a % 2 ^ w
and_low_mask zero a = omega (arith, and-zero_below a a (omega arith))
and_low_mask (suc w) a =
    let m = 2 ^ suc w - 1 in
    let half : m / 2 ≡ 2 ^ w - 1 = omega (arith, pow-suc 2 w, pow_pos w) in
    omega (
      arith,
      and_low a m,
      ap (λ n. bit_and (a / 2) n) half,
      and_low_mask w (a / 2),
      mod_pow-suc w a,
      pow-suc 2 w,
      pow_pos w,
    )

-- A mask of the bits from `k` up to `k + d` rounds down to a multiple of `2 ^ k`.
pub and_high_mask : (k d a : ℕ) → a < 2 ^ (k + d) → bit_and a (2 ^ (k + d) - 2 ^ k) + a % 2 ^ k ≡ a
and_high_mask zero d a h =
    let e : 0 + d ≡ d = omega arith in
    let lt : a < 2 ^ d = rw e at h in rw e (omega (arith, and_low_mask d a, mod-eq_of_lt lt))
and_high_mask (suc k) d a h =
    let up : suc k + d ≡ suc (k + d) = omega arith in
    let whole : 2 ^ (suc k + d) ≡ 2 ^ (k + d) * 2 = ap (λ n. 2 ^ n) up ∙ pow-suc 2 (k + d) in
    let m = 2 ^ (suc k + d) - 2 ^ suc k in
    let half : m / 2 ≡ 2 ^ (k + d) - 2 ^ k = omega (arith, whole, pow-suc 2 k) in
    omega (
      arith,
      and_low a m,
      ap (λ n. bit_and (a / 2) n) half,
      and_high_mask k d (a / 2) (omega (arith, whole)),
      mod_pow-suc k a,
      whole,
      pow-suc 2 k,
    )

differ_below : (x y : ℕ) → x < 2 → y < 2 → differ x y < 2
differ_below zero y hx hy = hy
differ_below (suc x) zero hx hy = hx
differ_below (suc x) (suc y) hx hy = differ_below x y (omega arith) (omega arith)

-- `xor` of numbers of `w` bits has `w` bits.
pub xor_below : (w a b : ℕ) → a < 2 ^ w → b < 2 ^ w → bit_xor a b < 2 ^ w
xor_below w zero b ha hb = omega (arith, bit_xor-bitwise 0 b)
xor_below zero (suc a) b ha hb = absurd (omega arith)
xor_below (suc w) (suc a) b ha hb =
    let halves = xor_below w (suc a / 2) (b / 2) in
    let p = pow-suc 2 w in
    omega (
      arith,
      xor_low a b,
      halves (omega (arith, p)) (omega (arith, p)),
      differ_below (suc a % 2) (b % 2) (omega arith) (omega arith),
      p,
    )
