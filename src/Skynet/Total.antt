-- ===== src/Skynet/Total.antt =====
-- examples/skynet.cpp: what the tree of tasks adds up to.
use native.Mathlib.Nat.{mod-eq_of_lt, mul-le-mul_left, mul-le-mul_right, pow-suc, one-le-pow}
use rg.Prelude.{ℕ, zero, suc, ◌+◌, ◌*◌, ◌%◌, ◌^◌, ◌<◌, ◌≤◌, ◌≡◌, refl, arith}
use rg.Alloc.{add64}
use rg.Skynet.{depth_offset, count_children, skynet_one}

-- `s` is the sum of the `m` numbers from `b` on.
abbrev IsSum : ℕ → ℕ → ℕ → Type 0
IsSum m b s = 2 * s + m ≡ 2 * (m * b) + m * m

IsSum-append : (t m b s u : ℕ) → IsSum t b s → IsSum m (b + t) u → IsSum (t + m) b (s + u)
IsSum-append t m b s u h k = grind arith

IsSum-le : (t m b s : ℕ) → IsSum t b s → t ≤ m → s ≤ m * (b + m)
IsSum-le t m b s h le =
    let a : t * b ≤ m * b = mul-le-mul_right b le in
    let c : t * t ≤ m * t = mul-le-mul_right t le in
    let d : m * t ≤ m * m = mul-le-mul_left m le in
    let e : m * (b + m) ≡ m * b + m * m = grind arith in omega arith

count_children-IsSum :
    (child : ℕ → ℕ) (m b n : ℕ)
    → n ≤ 10
    → m * 10 * (b + m * 10) < 2 ^ 64
    → ((i : ℕ) → i < 10 → IsSum m (b + m * i) (child i))
    → IsSum (m * n) b (count_children child n)
unfolding count_children
count_children-IsSum child m b zero le small h = grind arith
count_children-IsSum child m b (suc n) le small h =
    let before = count_children-IsSum child m b n (omega arith) small h in
    let both = IsSum-append (m * n) m b (count_children child n) (child n) before (h n le) in
    let top : m * n + m ≡ m * suc n = grind arith in
    let within : m * n + m ≤ m * 10 = grind (arith, mul-le-mul_left {n = 10} m le) in
    let fits = IsSum-le (m * n + m) (m * 10) b (count_children child n + child n) both within in
    let plain : add64 (count_children child n) (child n) ≡ count_children child n + child n =
      mod-eq_of_lt (omega arith) in
    rw (plain, ← top) both

depth_offset-eq : (k : ℕ) → 10 ^ k < 2 ^ 64 → depth_offset k ≡ 10 ^ k
unfolding depth_offset
depth_offset-eq zero h = refl
depth_offset-eq (suc k) h =
    let next : 10 ^ suc k ≡ 10 ^ k * 10 = pow-suc 10 k in
    let before = depth_offset-eq k (omega arith) in
    let small : 10 ^ k * 10 < 2 ^ 64 = omega arith in rw (before, next) (mod-eq_of_lt small)

-- What a child is given does not wrap around, if what the parent returns does not.
child-IsSum :
    (k base_num : ℕ)
    → 10 ^ k * 10 * (base_num + 10 ^ k * 10) < 2 ^ 64
    → ((b : ℕ) → 10 ^ k * (b + 10 ^ k) < 2 ^ 64 → IsSum (10 ^ k) b (skynet_one k b))
    → (i : ℕ) → i < 10
    → IsSum
        (10 ^ k)
        (base_num + 10 ^ k * i)
        (skynet_one k (add64 base_num (depth_offset k * i % 2 ^ 64)))
child-IsSum k base_num small total i lt =
    let m = 10 ^ k in
    let one : 1 ≤ m = one-le-pow k 10 (omega arith) in
    let limit = base_num + m * 10 in
    let up : m * suc i ≤ m * 10 = mul-le-mul_left m lt in
    let split : m * suc i ≡ m * i + m = grind arith in
    let narrow : m * (base_num + m * i + m) ≤ m * limit = mul-le-mul_left m (omega arith) in
    let wide : m * limit ≤ m * 10 * limit = mul-le-mul_right limit (omega arith) in
    let once : 1 * limit ≤ m * limit = mul-le-mul_right limit one in
    let offset : depth_offset k ≡ m = depth_offset-eq k (omega arith) in
    let step : m * i % 2 ^ 64 ≡ m * i = mod-eq_of_lt (omega arith) in
    let number : add64 base_num (m * i) ≡ base_num + m * i = mod-eq_of_lt (omega arith) in
    rw (offset, step, number) (total (base_num + m * i) (omega arith))

-- The task tree below a task of `skynet_one` with number `base_num`, at `k` levels above the leaves,
-- adds up to the sum of the `10 ^ k` numbers from `base_num` on, when that sum is so small that
-- `10 ^ k` times the number behind the last one is less than 2^64.
pub skynet_one_lem :
    (k base_num : ℕ)
    → 10 ^ k * (base_num + 10 ^ k) < 2 ^ 64
    → 2 * skynet_one k base_num + 10 ^ k ≡ 2 * (10 ^ k * base_num) + 10 ^ k * 10 ^ k
unfolding skynet_one
skynet_one_lem zero base_num small = omega arith
skynet_one_lem (suc k) base_num small =
    let m = 10 ^ k in
    let next : 10 ^ suc k ≡ m * 10 = pow-suc 10 k in
    let small' : m * 10 * (base_num + m * 10) < 2 ^ 64 = rw next at small in
    rw next (
      count_children-IsSum (λ idx. skynet_one k (add64 base_num (depth_offset k * idx % 2 ^ 64))) m
        base_num 10 (omega arith) small' (child-IsSum k base_num small' (skynet_one_lem k)))
