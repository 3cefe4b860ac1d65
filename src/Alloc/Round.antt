-- ===== src/Alloc/Round.antt =====
-- include/alloc/AffixAllocator.hpp: `round_to_alignment` gives the next multiple of the alignment.
use rg.Prelude.{ℕ, ◌+◌, ◌-◌, ◌*◌, ◌/◌, ◌%◌, ◌^◌, ◌<◌, ◌≤◌, ◌≡◌, ap, ◌∙◌, arith}
use rg.Prelude.Bits.{and_high_mask, pow_pos}
use native.Mathlib.Nat.{mod-lt, mod-eq_of_lt, add-mul-mod_self_right, mod-add-div'}
use rg.Alloc.{round_to_alignment}

module _ (k : ℕ) (low : k ≤ 64) where
  -- The rounded size, and what was cut off above it.
  round-low :
      (size : ℕ)
      → size + 2 ^ k ≤ 2 ^ 64
      → round_to_alignment (2 ^ k) size + (size + 2 ^ k - 1) % 2 ^ k ≡ size + 2 ^ k - 1
  unfolding round_to_alignment
  round-low size h =
      let e : k + (64 - k) ≡ 64 = omega arith in
      let pos = pow_pos k in
      let whole : 2 ^ (k + (64 - k)) ≡ 2 ^ 64 = ap (λ n. 2 ^ n) e in
      let value : ((size + 2 ^ k) % 2 ^ 64 + 2 ^ 64 - 1) % 2 ^ 64 ≡ size + 2 ^ k - 1 =
        omega arith in
      let mask : 2 ^ 64 - 1 - (2 ^ k + 2 ^ 64 - 1) % 2 ^ 64 ≡ 2 ^ (k + (64 - k)) - 2 ^ k =
        omega (arith, whole) in
      rw (value, mask) (and_high_mask k (64 - k) (size + 2 ^ k - 1) (omega (arith, whole)))

  -- The next multiple of the alignment is less than one alignment away.
  pub round_lem :
      (size : ℕ)
      → size + 2 ^ k ≤ 2 ^ 64
      → (size ≤ round_to_alignment (2 ^ k) size) × (round_to_alignment (2 ^ k) size < size + 2 ^ k)
  round_lem size h =
      let below = mod-lt (size + 2 ^ k - 1) (pow_pos k) in
      (omega (arith, round-low size h), omega (arith, round-low size h, pow_pos k))

  -- It is a multiple: rounding it again does nothing.
  pub round-round :
      (size : ℕ)
      → size + 2 ^ k + 2 ^ k ≤ 2 ^ 64
      → round_to_alignment (2 ^ k) (round_to_alignment (2 ^ k) size)
        ≡ round_to_alignment (2 ^ k) size
  round-round size h =
      let r = round_to_alignment (2 ^ k) size in
      let a = size + 2 ^ k - 1 in
      let pos = pow_pos k in
      let cut = round-low size (omega arith) in
      let multiple : r ≡ a / 2 ^ k * 2 ^ k = omega (arith, mod-add-div' a (2 ^ k)) in
      let again : r + 2 ^ k - 1 ≡ 2 ^ k - 1 + a / 2 ^ k * 2 ^ k = omega arith in
      let rest : (r + 2 ^ k - 1) % 2 ^ k ≡ 2 ^ k - 1 =
        ap (λ n. n % 2 ^ k) again
        ∙ add-mul-mod_self_right (2 ^ k - 1) (a / 2 ^ k) (2 ^ k)
        ∙ mod-eq_of_lt (omega arith) in
      omega (arith, round-low r (omega arith))
