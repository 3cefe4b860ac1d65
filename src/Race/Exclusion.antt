-- ===== src/Race/Exclusion.antt =====
-- include/ResourceNode.hpp: which tasks are ready at once, whatever the order of the threads' steps.
use rg.Prelude.{ℕ, ◌<◌, ◌≤◌, false, ◌≡◌, ◌≢◌, some, arith}
use mathlib.Core.Logic.{ite}
use native.Mathlib.Decide.{ℕ_discrete}
use rg.Access.{is_serial_access}
use rg.Race.{Mem, Adder, Remover, AddMove, RemoveMove, set_at}
use rg.Race.System.{System, Step, adds, removes, new_system, Reach, start, later}
use rg.Race.Invariant.{
  MemInv, AdderFits, RemoverFits, standing, standing-IsStanding, RemoverFits-Grows,
}
use rg.Race.Removing.{
  RemoveMove-Grows, RemoveMove-first, RemoveMove-standing, RemoveMove-AdderFits, RemoveMove-MemInv,
  RemoveMove-RemoverFits,
}
use rg.Race.Adding.{AddMove-Grows, AddMove-first, AddMove-MemInv, AddMove-AdderFits}

-- The node is in order, each thread's variables fit it and no two remove the same entry.
pub record Inv (s : System) : Type 0 where
  pub mem_inv : MemInv s.mem
  pub adder_fits : AdderFits s.mem s.adder
  pub remover_fits : (k : ℕ) → RemoverFits s.mem (s.removers k)
  pub alone :
      (j k p : ℕ) → standing (s.removers j) ≡ some p → standing (s.removers k) ≡ some p → j ≡ k

new_system-Inv : Inv new_system
new_system-Inv = record {
  mem_inv = record {
    running = omega arith;
    waiting = omega arith;
    room = omega arith;
    distinct = λ i j c a b. absurd (omega arith);
    together = λ i j a b c. absurd (omega arith);
    passed = λ i a. absurd (omega arith);
  };
  adder_fits = tt;
  remover_fits = λ k. tt;
  alone = λ j k p a b. ground arith;
}

module _ {s : System} (inv : Inv s) where
  open inv use {mem_inv, adder_fits, remover_fits, alone}

  first-standing :
      (m : Mem) (k p : ℕ) → m.first ≤ s.mem.first → standing (s.removers k) ≡ some p → m.first ≤ p
  first-standing m k p h e =
      ground (arith, standing-IsStanding s.mem (s.removers k) p e (remover_fits k))

  adds-Inv :
      {m : Mem} {a : Adder} → AddMove s.mem s.adder m a → Inv (record s { mem = m; adder = a })
  adds-Inv {m} mv = record {
    mem_inv = AddMove-MemInv mem_inv mv adder_fits;
    adder_fits = AddMove-AdderFits mem_inv mv adder_fits;
    remover_fits = λ k.
        RemoverFits-Grows (AddMove-Grows mv adder_fits) (s.removers k) mem_inv
          (λ p e. first-standing m k p (AddMove-first mv) e) (remover_fits k);
    alone = alone;
  }

  module _ (k : ℕ) {m : Mem} {r : Remover} (mv : RemoveMove s.mem (s.removers k) m r) where
    -- The thread that moves stands where no other thread stands.
    alone-moved : (j p : ℕ) → j ≢ k → standing (s.removers j) ≡ some p → standing r ≢ some p
    alone-moved j p n e d = ground (
      arith,
      RemoveMove-standing p mv d,
      alone j k p e,
      standing-IsStanding s.mem (s.removers j) p e (remover_fits j),
    )

    removes-fits : (j : ℕ) → RemoverFits m (set_at s.removers k r j)
    removes-fits j = elim (ℕ_discrete k j) as (λ d. RemoverFits m (ite d r (s.removers j))) [
      | yes e ↦ RemoveMove-RemoverFits mem_inv mv (remover_fits k)
      | no n ↦
          RemoverFits-Grows (RemoveMove-Grows mv (remover_fits k)) (s.removers j) mem_inv
            (λ p e.
              RemoveMove-first p mv (remover_fits k) (λ d. n (alone k j p d e))
                (first-standing s.mem j p (omega arith) e))
            (remover_fits j)
    ]

    removes-alone :
        (i j p : ℕ)
        → standing (set_at s.removers k r i) ≡ some p
        → standing (set_at s.removers k r j) ≡ some p
        → i ≡ j
    removes-alone i j p a b = ground (arith, alone i j p, alone-moved i p, alone-moved j p)

    removes-Inv : Inv (record s { mem = m; removers = set_at s.removers k r })
    removes-Inv = record {
      mem_inv = RemoveMove-MemInv mem_inv mv (remover_fits k);
      adder_fits = RemoveMove-AdderFits s.adder mv (remover_fits k) adder_fits;
      remover_fits = removes-fits;
      alone = removes-alone;
    }

  pub Step-Inv : {t : System} → Step s t → Inv t
  Step-Inv (adds mv) = adds-Inv mv
  Step-Inv (removes k mv) = removes-Inv k mv

pub Reach-Inv : {s : System} → Reach s → Inv s
Reach-Inv start = new_system-Inv
Reach-Inv (later r st) = Step-Inv (Reach-Inv r) st

-- Whatever the order in which one adding thread and any number of removing threads take their steps
-- on a node, each task with a handle of its own as long as `first` has not passed it, no two tasks that are ready at once have accesses that must not overlap.
pub ready-parallel :
    {s : System} (i j : ℕ)
    → Reach s
    → s.mem.first ≤ i
    → i < j
    → j < s.mem.first_not_ready
    → is_serial_access (s.mem.modes i) (s.mem.modes j) ≡ false
ready-parallel i j r a b c = let inv : Inv _ = Reach-Inv r in inv.mem_inv.together i j a b c
