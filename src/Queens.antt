-- ===== src/Queens.antt =====
-- examples/nqueens.cpp: the search for the boards of queens, by the value that each task returns to
-- `get`. A row that a `char` does not hold, and a sum that an `int` does not hold, are undefined.
pub mod Count
mod Tests
use rg.Prelude.{
  ℕ, zero, suc, ◌+◌, ◌-◌, ◌^◌, ◌==◌, ltb, ◌&&◌, ◌||◌, not, if◌then◌else◌, Bool, true, false, List,
  get_or, set,
}
use rg.Prelude.Exec.{Exec, ret, undefined, ◌>>=◌}

-- Whether queens in the rows `q` and `p`, `d` columns apart, attack each other. `q == p - d` fails
-- where `p - d` is negative.
abbrev pub attacks : ℕ → ℕ → ℕ → Bool
attacks q p d = (q == p) || (q + d == p) || (q == p + d)

-- The loop of the filter, after its first columns: the queen in the row `q` of the column `x_max` is
-- attacked from none of them.
unfoldable pub is_free : List ℕ → ℕ → ℕ → ℕ → Bool
is_free buf q x_max zero = true
is_free buf q x_max (suc x) = is_free buf q x_max x && not (attacks q (get_or buf x 0) (x_max - x))

-- `ret +=` on an `int`.
unfoldable pub add_int : ℕ → ℕ → Exec ℕ
add_int a b = if ltb (a + b) (2 ^ 31) then ret (a + b) else undefined

-- The sum over the first rows.
unfoldable pub sum_rows : (ℕ → Exec ℕ) → ℕ → Exec ℕ
sum_rows f zero = ret 0
sum_rows f (suc y) = do sum ← sum_rows f y; part ← f y; add_int sum part

-- `nqueens<n>(x_max, buf)`, by the number of columns that are left. A task is dispatched for each row
-- that passes the filter, with a copy of `buf` that has the row at `x_max`.
unfoldable pub nqueens : ℕ → ℕ → ℕ → List ℕ → Exec ℕ
nqueens n zero x_max buf = ret 1
nqueens n (suc left) x_max buf =
    sum_rows
      (λ y.
        let child = nqueens n left (x_max + 1) (set buf x_max y) in
        if not (ltb y 128)
        then undefined
        else if is_free (set buf x_max y) y x_max x_max
        then child
        else ret 0)
      n
