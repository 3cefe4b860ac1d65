-- ===== src/MathUtils/Remainder.antt =====
-- include/math_utils.hpp: both branches of `modulo` give the remainder.
use Prim.Native.Nat.{bit_and}
use rg.Prelude.{
  ℕ, zero, suc, ◌-◌, ◌/◌, ◌%◌, ◌^◌, ◌<◌, ◌≤◌, ◌==◌, ◌≡◌, refl, ap, sym, ◌∙◌, arith, Bool-cases, inl,
  inr, ==_iff,
}
use rg.Prelude.Bits.{and_low, and_low_mask}
use native.Mathlib.Nat.{pow-suc}
use rg.MathUtils.{modulo}

and_self : (n a : ℕ) → a ≤ n → bit_and a a ≡ a
and_self zero zero h = refl
and_self zero (suc a) h = absurd (omega arith)
and_self (suc n) zero h = refl
and_self (suc n) (suc a) h =
    omega (arith, and_low (suc a) (suc a), and_self n (suc a / 2) (omega arith))

-- The test of the code finds powers of 2 only.
power_of_two : (n m : ℕ) → m ≤ n → 0 < m → bit_and m (m - 1) ≡ 0 → (k : ℕ) × (m ≡ 2 ^ k)
power_of_two zero m h pos e = absurd (omega arith)
power_of_two (suc n) m h pos e =
    let low = and_low m (m - 1) in
    let half = m / 2 in
    elim (Bool-cases (m % 2 == 0)) [
      | inl even ↦
          let d : m % 2 ≡ 0 = (==_iff (m % 2) 0).0 even in
          let under : (m - 1) / 2 ≡ half - 1 = omega arith in
          let (k, p) =
            power_of_two n half (omega arith) (omega arith)
              (omega (arith, low, ap (λ b. bit_and half b) under)) in
          (suc k, omega (arith, p, pow-suc 2 k))
      | inr odd ↦
          let d : m % 2 ≡ 1 = ground arith in
          let under : (m - 1) / 2 ≡ half = omega arith in
          let self = and_self half half (omega arith) in
          (0, omega (arith, low, ap (λ b. bit_and half b) under, self))
    ]

-- For every modulus greater than 0, a power of 2 or not, `modulo` is the remainder of the division.
pub modulo_lem : (modulus value : ℕ) → 0 < modulus → modulo modulus value ≡ value % modulus
unfolding modulo
modulo_lem modulus value pos = elim (Bool-cases (bit_and modulus (modulus - 1) == 0)) [
  | inr e ↦ rw e refl
  | inl e ↦
      let zero_and = (==_iff (bit_and modulus (modulus - 1)) 0).0 e in
      let (k, p) = power_of_two modulus modulus (omega arith) pos zero_and in
      rw e (ap (λ m. bit_and value (m - 1)) p ∙ and_low_mask k value ∙ ap (λ m. value % m) (sym p))
]
