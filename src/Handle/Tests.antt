-- ===== src/Handle/Tests.antt =====
-- Two handles of one coroutine; the second one is moved over the first.
use rg.Prelude.{ℕ, zero, suc, ◌+◌, ◌≡◌, ◌≢◌, ◌==◌, refl, if◌then◌else◌, [], ◌∷◌, arith}
use rg.Handle.{Handle, Program, slot, move_in, run_op}
use rg.Handle.Counted.{IsCounted, holders, times, lost, run_op-IsCounted}

abbrev shared : Handle
shared = record { address = 5; ref_count = 5 }

abbrev two_handles : Program
two_handles = record {
  slots = shared ∷ shared ∷ [];
  memory = record { counts = λ a. if a == 5 then 2 else 0; destroyed = [] };
}

two_handles_paired :
    (i : ℕ)
    → (slot two_handles i).ref_count ≢ 0
    → (slot two_handles i).address ≡ (slot two_handles i).ref_count
two_handles_paired zero ne = refl
two_handles_paired (suc zero) ne = refl
two_handles_paired (suc (suc i)) ne = refl

two_handles-IsCounted : IsCounted two_handles
unfolding holders
two_handles-IsCounted = record {
  few = omega arith;
  counted = λ a ne. ground arith;
  paired = two_handles_paired;
}

run_op-IsCounted_example :
    IsCounted (run_op (move_in 0 1) two_handles)
    × ((a : ℕ)
        → a ≢ 0
        → times a (run_op (move_in 0 1) two_handles).memory.destroyed
          ≡ times a [] + (if lost a two_handles (run_op (move_in 0 1) two_handles) then 1 else 0))
run_op-IsCounted_example =
    run_op-IsCounted (move_in 0 1) two_handles two_handles-IsCounted (omega arith, omega arith)
