-- ===== src/Queens/Count.antt =====
-- examples/nqueens.cpp: the pruned search counts what a search through all boards counts, which tests
-- each board by the geometry of its squares.
use rg.Prelude.{
  ℕ, zero, suc, ◌+◌, ◌-◌, ◌*◌, ◌^◌, ◌<◌, ◌≤◌, ◌==◌, lt→ltb, ◌&&◌, ◌||◌, not, if◌then◌else◌, Bool,
  true, false, List, length, length-set, get_or, set, get_or-set_ne, get_or-set_self, Bool-cases,
  inl, inr, ◌≡◌, ◌∙◌, refl, sym, ap, arith,
}
use native.Mathlib.Nat.{pow-suc, suc-mul, mul_comm}
use native.Mathlib.Numerals.{unary_clauses}
use rg.Prelude.Exec.{Exec, ret}
use rg.Queens.{attacks, is_free, add_int, sum_rows, nqueens}

unfoldable pub distance : ℕ → ℕ → ℕ
distance p q = (p - q) + (q - p)

-- Whether the squares in the columns `x` and `x'` and the rows `y` and `y'` are on one row or diagonal.
unfoldable pub in_line : ℕ → ℕ → ℕ → ℕ → Bool
in_line x y x' y' = (distance y y' == 0) || (distance y y' == distance x x')

-- The queen of the column `x'` is on no line with one in the first columns.
unfoldable pub is_alone : List ℕ → ℕ → ℕ → Bool
is_alone buf x' zero = true
is_alone buf x' (suc x) = not (in_line x (get_or buf x 0) x' (get_or buf x' 0)) && is_alone buf x' x

-- No two queens in the first columns are on one line.
unfoldable pub is_safe : List ℕ → ℕ → Bool
is_safe buf zero = true
is_safe buf (suc x) = is_safe buf x && is_alone buf x x

unfoldable pub total_rows : (ℕ → ℕ) → ℕ → ℕ
total_rows g zero = 0
total_rows g (suc y) = total_rows g y + g y

-- All ways to fill the columns that are left are tried, and the boards that are safe are counted.
unfoldable pub count_boards : ℕ → ℕ → ℕ → List ℕ → ℕ
count_boards n zero x_max buf = if is_safe buf x_max then 1 else 0
count_boards n (suc left) x_max buf =
    total_rows (λ y. count_boards n left (x_max + 1) (set buf x_max y)) n

total_rows-zero : (f : ℕ → ℕ) (n : ℕ) → ((y : ℕ) → f y ≡ 0) → total_rows f n ≡ 0
unfolding total_rows
total_rows-zero f zero h = refl
total_rows-zero f (suc n) h = rw (total_rows-zero f n h, h n) refl

-- Rows whose values are as given add up without an overflow if the whole sum fits.
sum_rows-total :
    (f : ℕ → Exec ℕ) (g : ℕ → ℕ) (n : ℕ)
    → ((y : ℕ) → y < n → g y < 2 ^ 31 → f y ≡ ret (g y))
    → total_rows g n < 2 ^ 31
    → sum_rows f n ≡ ret (total_rows g n)
unfolding sum_rows total_rows add_int
sum_rows-total f g zero h fits = refl
sum_rows-total f g (suc n) h fits =
    let before = sum_rows-total f g n (λ y lt. h y (omega arith)) (omega arith) in
    let last = h n (omega arith) (omega arith) in rw (before, last) (ground arith)

-- The filter looks at the lines through the new queen.
attacks-in_line : (x x' p q : ℕ) → x < x' → attacks q p (x' - x) ≡ in_line x p x' q
unfolding in_line distance
attacks-in_line x x' p q lt = ground arith

is_free-is_alone :
    (buf : List ℕ) (x' x : ℕ) → x ≤ x' → is_free buf (get_or buf x' 0) x' x ≡ is_alone buf x' x
unfolding is_free is_alone
is_free-is_alone buf x' zero le = refl
is_free-is_alone buf x' (suc x) le =
    let before = is_free-is_alone buf x' x (omega arith) in
    let line = attacks-in_line x x' (get_or buf x 0) (get_or buf x' 0) (omega arith) in ground arith

-- A later column does not matter for the earlier ones.
is_alone-set :
    (buf : List ℕ) (x' i v x : ℕ)
    → x ≤ x'
    → x' < i
    → is_alone (set buf i v) x' x ≡ is_alone buf x' x
unfolding is_alone
is_alone-set buf x' i v zero le lt = refl
is_alone-set buf x' i v (suc x) le lt =
    let same = get_or-set_ne buf i x v 0 (λ e. omega arith) in
    let same' = get_or-set_ne buf i x' v 0 (λ e. omega arith) in
    rw (is_alone-set buf x' i v x (omega arith) lt, same, same') refl

is_safe-set : (buf : List ℕ) (i v x : ℕ) → x ≤ i → is_safe (set buf i v) x ≡ is_safe buf x
unfolding is_safe
is_safe-set buf i v zero le = refl
is_safe-set buf i v (suc x) le =
    rw (is_safe-set buf i v x (omega arith), is_alone-set buf x i v x (omega arith) (omega arith))
      refl

is_safe-next :
    (buf : List ℕ) (x y : ℕ)
    → x < length buf
    → is_safe (set buf x y) (x + 1) ≡ (is_safe buf x && is_free (set buf x y) y x x)
unfolding is_safe
is_safe-next buf x y lt =
    let next : x + 1 ≡ suc x = omega arith in
    let there = get_or-set_self buf x y 0 lt in
    let free = is_free-is_alone (set buf x y) x x (omega arith) in
    let free' : is_free (set buf x y) y x x ≡ is_alone (set buf x y) x x =
      ap (λ q. is_free (set buf x y) q x x) (sym there) ∙ free in
    rw (next, is_safe-set buf x y x (omega arith), free') refl

count_boards-unsafe :
    (n left x_max : ℕ) (buf : List ℕ)
    → x_max + left ≡ length buf
    → is_safe buf x_max ≡ false
    → count_boards n left x_max buf ≡ 0
unfolding count_boards
count_boards-unsafe n zero x_max buf e bad = rw bad refl
count_boards-unsafe n (suc left) x_max buf e bad =
    total_rows-zero (λ y. count_boards n left (x_max + 1) (set buf x_max y)) n
      (λ y.
        count_boards-unsafe n left (x_max + 1) (set buf x_max y)
          (omega (arith, length-set buf x_max y))
          (is_safe-next buf x_max y (omega arith) ∙ rw bad refl))

-- On a board whose columns are those that are filled, with no two queens on one row or diagonal, and
-- those that are left: let a `char` hold every row number, and an `int` the number of boards that the
-- search through every row in every column left counts, which looks at the rows and diagonals of the
-- whole board in the end. Then the search with the filter is defined and returns that number.
pub nqueens_lem :
    (n left x_max : ℕ) (buf : List ℕ)
    → n ≤ 128
    → x_max + left ≡ length buf
    → is_safe buf x_max ≡ true
    → count_boards n left x_max buf < 2 ^ 31
    → nqueens n left x_max buf ≡ ret (count_boards n left x_max buf)
unfolding nqueens count_boards
nqueens_lem n zero x_max buf small e good fits = rw good refl
nqueens_lem n (suc left) x_max buf small e good fits =
    sum_rows-total _ (λ y. count_boards n left (x_max + 1) (set buf x_max y)) n
      (λ y lt part.
        let next = is_safe-next buf x_max y (omega arith) in
        let size : x_max + 1 + left ≡ length (set buf x_max y) =
          omega (arith, length-set buf x_max y) in
        let char = lt→ltb y 128 (omega arith) in
        elim (Bool-cases (is_free (set buf x_max y) y x_max x_max)) [
          | inl free ↦
              rw (char, free)
                (nqueens_lem n left (x_max + 1) (set buf x_max y) small size
                  (next ∙ rw (good, free) refl) part)
          | inr attacked ↦
              rw (char, attacked)
                (ap ret (
                  sym (
                    count_boards-unsafe n left (x_max + 1) (set buf x_max y) size
                      (next ∙ rw (good, attacked) refl))))
        ])
      fits

total_rows-le : (g : ℕ → ℕ) (k n : ℕ) → ((y : ℕ) → g y ≤ k) → total_rows g n ≤ n * k
unfolding total_rows
total_rows-le g k zero h = omega arith
total_rows-le g k (suc n) h =
    let more = suc-mul n k in omega (arith, total_rows-le g k n h, h n, more)

-- There are no more boards than ways to fill the columns.
pub count_boards-le : (n left x_max : ℕ) (buf : List ℕ) → count_boards n left x_max buf ≤ n ^ left
unfolding count_boards
count_boards-le n zero x_max buf = let one : n ^ 0 ≡ 1 = simp unary_clauses refl in ground arith
count_boards-le n (suc left) x_max buf =
    let each = λ (y : ℕ). count_boards-le n left (x_max + 1) (set buf x_max y) in
    let all =
      total_rows-le (λ y. count_boards n left (x_max + 1) (set buf x_max y)) (n ^ left) n each in
    let power : n ^ suc left ≡ n * n ^ left = pow-suc n left ∙ mul_comm (n ^ left) n in
    omega (arith, all, power)
