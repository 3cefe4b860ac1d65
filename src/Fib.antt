-- ===== src/Fib.antt =====
-- examples/fib.cpp: `fib`, by the value that each task returns to `get`.
use rg.Prelude.{ℕ, zero, suc, ◌+◌, ◌%◌, ◌^◌, ◌≡◌, refl, arith}
use rg.Alloc.{add64}

unfoldable pub fib : ℕ → ℕ
fib zero = 0
fib (suc zero) = 1
fib (suc (suc n)) = add64 (fib (suc n)) (fib n)

-- The Fibonacci numbers.
abbrev fibonacci : ℕ → ℕ
fibonacci zero = 0
fibonacci (suc zero) = 1
fibonacci (suc (suc n)) = fibonacci (suc n) + fibonacci n

-- A tree of tasks computes the Fibonacci number modulo 2^64.
fib-eq : (n : ℕ) → fib n ≡ fibonacci n % 2 ^ 64
unfolding fib
fib-eq zero = refl
fib-eq (suc zero) = refl
fib-eq (suc (suc n)) = omega (arith, fib-eq (suc n), fib-eq n)
