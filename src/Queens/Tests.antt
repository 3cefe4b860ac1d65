-- ===== src/Queens/Tests.antt =====
-- examples/nqueens.cpp: small boards, against the table `answers`.
use rg.Prelude.{replicate, ◌^◌, ◌<◌, ◌≡◌, refl, arith}
use rg.Prelude.Exec.{ret, undefined}
use rg.Queens.{add_int, is_free, sum_rows, nqueens}
use rg.Queens.Count.{is_safe, count_boards, count_boards-le, nqueens_lem}

four_queens : nqueens 4 4 0 (replicate 4 0) ≡ ret 2
unfolding nqueens is_free sum_rows add_int
four_queens = refl

five_queens : nqueens 5 5 0 (replicate 5 0) ≡ ret 10
unfolding nqueens is_free sum_rows add_int
five_queens = refl

-- One more than the greatest `int`.
overflow : add_int 2147483647 1 ≡ undefined
unfolding add_int
overflow = refl

few_boards : count_boards 8 8 0 (replicate 8 0) < 2 ^ 31
few_boards = omega (arith, count_boards-le 8 8 0 (replicate 8 0))

nqueens_lem_example : nqueens 8 8 0 (replicate 8 0) ≡ ret (count_boards 8 8 0 (replicate 8 0))
unfolding is_safe
nqueens_lem_example = nqueens_lem 8 8 0 (replicate 8 0) (omega arith) refl refl few_boards
