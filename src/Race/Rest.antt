-- ===== src/Race/Rest.antt =====
-- include/ResourceNode.hpp: what waits once the threads rest.
use native.Mathlib.Decide.{dec_lt}
use rg.Prelude.{ℕ, zero, suc, subst, ◌<◌, true, ◌≡◌, ◌≢◌, ◌⊎◌, inl, inr, some, refl, arith}
use rg.Race.{resting, outside, set_at}
use rg.Race.System.{System, Step, adds, removes, new_system, Reach, start, later}
use rg.Race.Minds.{
  minds, minds_at, IsIdle, IsUnmarked, AddMove-minds, RemoveMove-minds, AddMove-marked,
  RemoveMove-marked,
}
use rg.Race.Exclusion.{Inv, Reach-Inv}

-- An idle node has a thread that still has to look.
pub record Minded (s : System) : Type 0 where
  pub marked_below : (i : ℕ) → s.mem.removed i ≡ true → i < s.mem.last
  pub minded :
      IsUnmarked s.mem → IsIdle s.mem → (t : ℕ) × (minds_at s t ≡ some s.mem.first_not_ready)

new_system-Minded : Minded new_system
new_system-Minded = record {
  marked_below = λ i e. ground arith;
  minded = λ un idle. absurd (ground arith);
}

-- A thread other than the mover still has to look.
someone_looks :
    {s : System} (t : System) (k : ℕ)
    → ((u : ℕ) → u ≢ k → minds_at t u ≡ minds_at s u)
    → Minded s
    → IsUnmarked s.mem
    → (minds_at t k ≡ some t.mem.first_not_ready)
      ⊎ (IsIdle s.mem
          × (t.mem.first_not_ready ≡ s.mem.first_not_ready)
          × (minds_at s k ≢ some s.mem.first_not_ready))
    → (u : ℕ) × (minds_at t u ≡ some t.mem.first_not_ready)
someone_looks t k others d un (inl e) = (k, e)
someone_looks {s} t k others d un (inr (idle, e, n)) =
    let (u, h) = d.minded un idle in (u, ground (arith, others u))

Step-Minded : {s t : System} → Step s t → Inv s → Minded s → Minded t
Step-Minded {s} (adds {m} {a} mv) inv d = record {
  marked_below = λ i. (AddMove-marked mv d.marked_below i).0;
  minded = λ un idle.
      someone_looks (record s { mem = m; adder = a }) 0 others d
        (λ i. (AddMove-marked mv d.marked_below i).1 (un i))
        (AddMove-minds mv inv.mem_inv inv.adder_fits idle);
}
  where
    others : (u : ℕ) → u ≢ 0 → minds_at (record s { mem = m; adder = a }) u ≡ minds_at s u
    others zero h = absurd (h refl)
    others (suc u) h = refl
Step-Minded {s} (removes k {m} {r} mv) inv d = record {
  marked_below = λ i. (RemoveMove-marked mv inv.mem_inv (inv.remover_fits k) d.marked_below i).0;
  minded = λ un idle.
      someone_looks (record s { mem = m; removers = set_at s.removers k r }) (suc k) others d
        (λ i. (RemoveMove-marked mv inv.mem_inv (inv.remover_fits k) d.marked_below i).1 (un i))
        (subst
          (λ o.
            (o ≡ some m.first_not_ready)
            ⊎ (IsIdle s.mem
                × (m.first_not_ready ≡ s.mem.first_not_ready)
                × (minds (s.removers k) ≢ some s.mem.first_not_ready)))
          self (RemoveMove-minds mv inv.mem_inv (inv.remover_fits k) un idle));
}
  where
    self : minds r ≡ minds (set_at s.removers k r k)
    self = ground arith

    others :
        (u : ℕ)
        → u ≢ suc k
        → minds_at (record s { mem = m; removers = set_at s.removers k r }) u ≡ minds_at s u
    others zero h = refl
    others (suc u) h = ground arith

Reach-Minded : {s : System} → Reach s → Minded s
Reach-Minded start = new_system-Minded
Reach-Minded (later r st) = Step-Minded st (Reach-Inv r) (Reach-Minded r)

-- When every thread has returned and no entry was removed while an earlier one stayed, then on a node
-- none of whose ready tasks is left no task waits, whatever the order of the threads' steps was.
pub rest-none_waits :
    {s : System}
    → Reach s
    → IsUnmarked s.mem
    → s.adder ≡ resting
    → ((k : ℕ) → s.removers k ≡ outside)
    → s.mem.first ≡ s.mem.first_not_ready
    → s.mem.first_not_ready ≡ s.mem.last
rest-none_waits {s} r un a b e = elim (dec_lt s.mem.first_not_ready s.mem.last) [
  | yes lt ↦ let (t, h) = d.minded un (e, lt) in absurd (nobody t h)
  | no n ↦ let inv : Inv s = Reach-Inv r in omega (arith, inv.mem_inv.waiting)
]
  where
    d : Minded s
    d = Reach-Minded r

    nobody : (t : ℕ) → minds_at s t ≢ some s.mem.first_not_ready
    nobody zero = ground arith
    nobody (suc k) = ground (arith, b k)
