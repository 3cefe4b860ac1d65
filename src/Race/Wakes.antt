-- ===== src/Race/Wakes.antt =====
-- include/ResourceNode.hpp: how often the wait counter of an entry is lowered.
use native.Mathlib.Decide.{ℕ_discrete, dec_lt}
use rg.Prelude.{
  ℕ, zero, suc, ◌∙◌, subst, ◌+◌, ◌<◌, ◌≤◌, ◌≡◌, ◌≢◌, ◌⊎◌, inl, inr, Option, none, some, refl, arith,
}
use rg.Race.{
  Mem, Adder, lowering, Remover, lowering_first, lowering_next, AddMove, grant, lower_own,
  RemoveMove, claim, claim_next, lower_first, lower_next, set_at,
}
use rg.Race.System.{System, Step, adds, removes, new_mem, new_system, Reach, start, later}

-- The entry whose wait counter the thread is about to lower.
abbrev pub adder_owes : Adder → Option ℕ
adder_owes (lowering l) = some l
adder_owes _ = none

abbrev pub owes : Remover → Option ℕ
owes (lowering_first f) = some f
owes (lowering_next _ f _) = some f
owes _ = none

-- The adding thread first, then the removing ones.
abbrev pub owes_at : System → ℕ → Option ℕ
owes_at s zero = adder_owes s.adder
owes_at s (suc k) = owes (s.removers k)

-- An entry that is not ready is not lowered, and a ready one either once or by one thread later on.
pub record Counted (m : Mem) (o : ℕ → Option ℕ) : Type 0 where
  pub above : (i : ℕ) → m.first_not_ready ≤ i → m.lowered i ≡ 0
  pub owed : (t i : ℕ) → o t ≡ some i → (i < m.first_not_ready) × (m.lowered i ≡ 0)
  pub once : (t u i : ℕ) → o t ≡ some i → o u ≡ some i → t ≡ u
  pub below : (i : ℕ) → i < m.first_not_ready → (m.lowered i ≡ 1) ⊎ ((t : ℕ) × (o t ≡ some i))

new_system-Counted : Counted new_mem (owes_at new_system)
new_system-Counted = record {
  above = λ i a. refl;
  owed = λ t i e. ground (arith, owes_nothing t);
  once = λ t u i e d. ground (arith, owes_nothing t);
  below = λ i a. absurd (omega arith);
}
  where
    owes_nothing : (t : ℕ) → owes_at new_system t ≡ none
    owes_nothing zero = refl
    owes_nothing (suc t) = refl

-- What a move does to the counts: nothing, a claim or a decrement.
data Effect (m m' : Mem) (o o' : Option ℕ) : Type 0 where
  keeps :
      m'.first_not_ready ≡ m.first_not_ready
      → ((i : ℕ) → m'.lowered i ≡ m.lowered i)
      → o' ≡ o
      → Effect m m' o o'
  claims :
      m'.first_not_ready ≡ m.first_not_ready + 1
      → ((i : ℕ) → m'.lowered i ≡ m.lowered i)
      → o ≡ none
      → o' ≡ some m.first_not_ready
      → Effect m m' o o'
  lowers :
      (f : ℕ)
      → m'.first_not_ready ≡ m.first_not_ready
      → ((i : ℕ) → m'.lowered i ≡ set_at m.lowered f (m.lowered f + 1) i)
      → o ≡ some f
      → o' ≡ none
      → Effect m m' o o'

AddMove-Effect :
    {m m' : Mem} {a a' : Adder} → AddMove m a m' a' → Effect m m' (adder_owes a) (adder_owes a')
AddMove-Effect (grant {l} g) = claims (omega arith) (λ i. refl) refl (ground arith)
AddMove-Effect (lower_own {l}) = lowers l refl (λ i. refl) refl refl
AddMove-Effect mv = keeps refl (λ i. refl) refl

RemoveMove-Effect :
    {m m' : Mem} {r r' : Remover} → RemoveMove m r m' r' → Effect m m' (owes r) (owes r')
RemoveMove-Effect (claim {f} g) = claims (omega arith) (λ i. refl) refl (ground arith)
RemoveMove-Effect (claim_next {c} {f} g) = claims (omega arith) (λ i. refl) refl (ground arith)
RemoveMove-Effect (lower_first {f}) = lowers f refl (λ i. refl) refl refl
RemoveMove-Effect (lower_next {c} {f}) = lowers f refl (λ i. refl) refl refl
RemoveMove-Effect mv = keeps refl (λ i. refl) refl

module _ {m m' : Mem} {o o' : ℕ → Option ℕ} (t : ℕ) (others : (u : ℕ) → u ≢ t → o' u ≡ o u)
    (counted : Counted m o) where
  open counted use {above, owed, once, below}

  Effect-owed :
      Effect m m' (o t) (o' t)
      → (u i : ℕ) → o' u ≡ some i
      → (i < m'.first_not_ready) × (m'.lowered i ≡ 0)
  Effect-owed (keeps p q e) u i h = ground (arith, owed u i, others u, q i)
  Effect-owed (claims p q e d) u i h = ground (arith, owed u i, others u, q i, above i)
  Effect-owed (lowers f p q e d) u i h = ground (arith, owed u i, others u, q i, once u t i)

  Effect-once : Effect m m' (o t) (o' t) → (u v i : ℕ) → o' u ≡ some i → o' v ≡ some i → u ≡ v
  Effect-once (keeps p q e) u v i a b = ground (arith, once u v i, others u, others v)
  Effect-once (claims p q e d) u v i a b =
      ground (arith, once u v i, others u, others v, owed u i, owed v i)
  Effect-once (lowers f p q e d) u v i a b = ground (arith, once u v i, others u, others v)

  Effect-below :
      Effect m m' (o t) (o' t)
      → (i : ℕ) → i < m'.first_not_ready
      → (m'.lowered i ≡ 1) ⊎ ((u : ℕ) × (o' u ≡ some i))
  Effect-below (keeps p q e) i b = elim (below i (omega arith)) [
    | inl h ↦ inl (q i ∙ h)
    | inr (u, h) ↦ inr (u, ground (arith, others u))
  ]
  Effect-below (claims p q e d) i b = elim (dec_lt i m.first_not_ready) [
    | yes lt ↦ elim (below i lt) [
      | inl h ↦ inl (q i ∙ h)
      | inr (u, h) ↦ inr (u, ground (arith, others u))
    ]
    | no ge ↦ inr (t, ground arith)
  ]
  Effect-below (lowers f p q e d) i b = elim (ℕ_discrete f i) [
    | yes same ↦ inl (ground (arith, q i, owed t f e))
    | no other ↦ elim (below i (omega arith)) [
      | inl h ↦ inl (ground (arith, q i))
      | inr (u, h) ↦ inr (u, ground (arith, others u))
    ]
  ]

  Effect-Counted : Effect m m' (o t) (o' t) → Counted m' o'
  Effect-Counted ef = record {
    above = λ i b. Effect-above ef i b;
    owed = Effect-owed ef;
    once = Effect-once ef;
    below = Effect-below ef;
  }
    where
      Effect-above : Effect m m' (o t) (o' t) → (i : ℕ) → m'.first_not_ready ≤ i → m'.lowered i ≡ 0
      Effect-above (keeps p q e) i b = ground (arith, above i, q i)
      Effect-above (claims p q e d) i b = ground (arith, above i, q i)
      Effect-above (lowers f p q e d) i b = ground (arith, above i, q i, owed t f e)

Step-Counted : {s t : System} → Step s t → Counted s.mem (owes_at s) → Counted t.mem (owes_at t)
Step-Counted {s} (adds {m} {a} mv) c = Effect-Counted 0 other_adds c (AddMove-Effect mv)
  where
    other_adds : (u : ℕ) → u ≢ 0 → owes_at (record s { mem = m; adder = a }) u ≡ owes_at s u
    other_adds zero h = absurd (h refl)
    other_adds (suc u) h = refl
Step-Counted {s} (removes k {m} {r} mv) c =
    Effect-Counted (suc k) other_removes c
      (subst (Effect s.mem m (owes (s.removers k))) self (RemoveMove-Effect mv))
  where
    self : owes r ≡ owes (set_at s.removers k r k)
    self = ground arith

    other_removes :
        (u : ℕ)
        → u ≢ suc k
        → owes_at (record s { mem = m; removers = set_at s.removers k r }) u ≡ owes_at s u
    other_removes zero h = refl
    other_removes (suc u) h = ground arith

Reach-Counted : {s : System} → Reach s → Counted s.mem (owes_at s)
Reach-Counted start = new_system-Counted
Reach-Counted (later r st) = Step-Counted st (Reach-Counted r)

-- Whatever the order of the threads' steps on a node, an entry is in one of three states: it is not
-- ready and its wait counter was never lowered, it is ready and the counter was lowered exactly once,
-- or it is ready, the counter was not lowered and a thread is just about to lower it.
pub lowered-once :
    {s : System} (i : ℕ)
    → Reach s
    → ((s.mem.first_not_ready ≤ i) × (s.mem.lowered i ≡ 0))
      ⊎ (((i < s.mem.first_not_ready) × (s.mem.lowered i ≡ 1))
          ⊎ ((i < s.mem.first_not_ready)
              × (s.mem.lowered i ≡ 0)
              × ((t : ℕ) × (owes_at s t ≡ some i))))
lowered-once {s} i r =
    let c : Counted s.mem (owes_at s) = Reach-Counted r in
    elim (dec_lt i s.mem.first_not_ready) [
      | yes b ↦ elim (c.below i b) [
        | inl h ↦ inr (inl (b, h))
        | inr (t, h) ↦ inr (inr (b, (c.owed t i h).1, (t, h)))
      ]
      | no n ↦ let b : s.mem.first_not_ready ≤ i = omega arith in inl (b, c.above i b)
    ]
