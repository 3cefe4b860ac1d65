-- ===== src/InitTask/Root/Owners.antt =====
-- include/initTask.hpp: the counter of the promise is the number of those that own it, at every step.
use rg.Prelude.{
  ℕ, zero, suc, ◌+◌, ◌^◌, ◌<◌, ◌≤◌, ◌≡◌, ◌≢◌, ◌∙◌, not, if◌then◌else◌, Bool, true, false, List, [],
  ◌∷◌, ◌++◌, length, replicate, length-replicate, sym, refl, ap, arith,
}
use mathlib.Core.Path.{ap₂}
use rg.Handle.{
  Handle, null_handle, Memory, copy_construct, copy_assign, move_assign, increment_ref,
  decrement_ref, reset,
}
use rg.Life.Owners.{own, decrement-count, reset-count, assign-count, assign-own}
use rg.Life.{Operand, named, temporary}
use rg.InitTask.Root.{
  Stage, running, finishing, ended, Main, using, waiting, cleared, left, Root, new_root, dispatch,
}

-- Whether the promise holds itself, the awaiter holds it, and the object does.
abbrev pub in_self : Stage → Bool
in_self finishing = false
in_self ended = false
in_self _ = true

abbrev pub in_final : Stage → Bool
in_final finishing = true
in_final _ = false

abbrev pub in_object : Main → Bool
in_object left = false
in_object _ = true

-- Whether the destructor has passed its loop.
abbrev pub has_passed : Main → Bool
has_passed using = false
has_passed waiting = false
has_passed _ = true

abbrev one_if : Bool → ℕ
one_if b = if b then 1 else 0

abbrev pub owners : Stage → Main → ℕ → ℕ
owners s d n = one_if (in_self s) + one_if (in_final s) + one_if (in_object d) + n

pub record Counted (a : ℕ) (m : Memory) (r : Root) : Type 0 where
  pub self_at : r.self ≡ (if in_self r.stage then own a else null_handle)
  pub final_at : r.final ≡ (if in_final r.stage then own a else null_handle)
  pub coro_at : r.coro ≡ (if in_object r.main then own a else null_handle)
  pub n : ℕ
  pub parents_at : r.parents ≡ replicate n (own a)
  pub count : r.memory.counts a ≡ owners r.stage r.main n
  pub few : n + 3 ≤ 2 ^ 32
  pub outside_at : r.outside ≡ not (has_passed r.main)
  pub passed : has_passed r.main ≡ true → (r.stage ≡ ended) × (n ≡ 0)
  pub log : r.memory.destroyed ≡ (if in_object r.main then m.destroyed else m.destroyed ++ (a ∷ []))

decrement-log :
    (a : ℕ) (m : Memory)
    → a ≢ 0
    → 1 < m.counts a
    → (decrement_ref (own a) m).1.destroyed ≡ m.destroyed
unfolding decrement_ref
decrement-log a m ne h = ground arith

reset-log :
    (a : ℕ) (m : Memory) → a ≢ 0 → 1 < m.counts a → (reset (own a) m).1.destroyed ≡ m.destroyed
unfolding reset
reset-log a m ne h = ground arith

reset-last :
    (a : ℕ) (m : Memory)
    → a ≢ 0
    → m.counts a ≡ 1
    → (reset (own a) m).1.destroyed ≡ m.destroyed ++ (a ∷ [])
unfolding reset
reset-last a m ne h = ground arith

assign-log : (a : ℕ) (m : Memory) → (copy_assign null_handle (own a) m).1.destroyed ≡ m.destroyed
unfolding copy_assign decrement_ref increment_ref
assign-log a m = ground arith

pub new_root-Counted : (a : ℕ) (m : Memory) → a ≢ 0 → Counted a m (new_root a m)
unfolding new_root move_assign copy_construct increment_ref decrement_ref
new_root-Counted a m ne = record {
  self_at = refl;
  final_at = refl;
  coro_at = refl;
  n = 0;
  parents_at = refl;
  count = ground arith;
  few = omega arith;
  outside_at = refl;
  passed = λ e. ground arith;
  log = ground arith;
}

replicate-cons :
    (n : ℕ) {h x : Handle} {rest : List Handle}
    → replicate n h ≡ x ∷ rest
    → (k : ℕ) × (n ≡ suc k) × (x ≡ h) × (rest ≡ replicate k h)
replicate-cons zero e = cc
replicate-cons (suc k) e = (k, refl, cc, cc)

module _ (a : ℕ) (m : Memory) (ne : a ≢ 0) where
  pub dispatch-Counted :
      {r : Root} (operand : Operand) (f : Bool)
      → r.stage ≡ running
      → length r.parents + 3 < 2 ^ 32
      → Counted a m r
      → Counted a m (dispatch operand f r)
  unfolding dispatch
  dispatch-Counted temporary f e room c = c
  dispatch-Counted named true e room c = c
  dispatch-Counted {r} named false e room c =
      let self : r.self ≡ own a = c.self_at ∙ ground arith in
      let k = one_if (in_object r.main) + c.n in
      let parent : (copy_assign null_handle r.self r.memory).0 ≡ own a =
        ap (λ h. (copy_assign null_handle h r.memory).0) self ∙ assign-own a r.memory in
      let few' : suc c.n + 3 ≤ 2 ^ 32 =
        omega (arith, length-replicate c.n (own a), ap length c.parents_at, room) in
      record {
        self_at = c.self_at;
        final_at = c.final_at;
        coro_at = c.coro_at;
        n = suc c.n;
        parents_at = ap₂ ◌∷◌ parent c.parents_at;
        count =
            ap (λ h. (copy_assign null_handle h r.memory).1.counts a) self
            ∙ assign-count a (suc k) r.memory ne (c.count ∙ ground arith) (ground arith)
            ∙ ground arith;
        few = few';
        outside_at = c.outside_at;
        passed = λ h. absurd (ground (arith, c.passed h));
        log =
            ap (λ h. (copy_assign null_handle h r.memory).1.destroyed) self
            ∙ assign-log a r.memory
            ∙ c.log;
      }

  pub child-Counted :
      {r : Root} {parent : Handle} {rest : List Handle}
      → r.parents ≡ parent ∷ rest
      → Counted a m r
      → Counted a m (record r { memory = (decrement_ref parent r.memory).1; parents = rest })
  child-Counted {r} {parent} {rest} e c =
      let (k, n_eq, parent_eq, rest_eq) = replicate-cons c.n (sym c.parents_at ∙ e) in
      let there : in_object r.main ≡ true = ground (arith, c.passed) in
      let k' = one_if (in_self r.stage) + one_if (in_final r.stage) + 1 + k in
      let count : r.memory.counts a ≡ suc k' = c.count ∙ ground arith in
      record {
        self_at = c.self_at;
        final_at = c.final_at;
        coro_at = c.coro_at;
        n = k;
        parents_at = rest_eq;
        count =
            ap (λ h. (decrement_ref h r.memory).1.counts a) parent_eq
            ∙ decrement-count a k' r.memory ne count (ground (arith, c.few))
            ∙ ground arith;
        few = omega (arith, c.few);
        outside_at = c.outside_at;
        passed = λ h. absurd (ground (arith, c.passed h));
        log =
            ap (λ h. (decrement_ref h r.memory).1.destroyed) parent_eq
            ∙ decrement-log a r.memory ne (ground arith)
            ∙ c.log;
      }

  pub lets_go-Counted :
      {r : Root}
      → r.stage ≡ finishing
      → Counted a m r
      → Counted a m (record r {
        memory = (reset r.final r.memory).1;
        final = (reset r.final r.memory).0;
        stage = ended;
      })
  lets_go-Counted {r} e c =
      let final : r.final ≡ own a = c.final_at ∙ ground arith in
      let there : in_object r.main ≡ true = ground (arith, c.passed) in
      let k = 1 + c.n in
      let count : r.memory.counts a ≡ suc k = c.count ∙ ground arith in
      let (null, less) = reset-count a k r.memory ne count (omega (arith, c.few)) in
      record {
        self_at = c.self_at ∙ ground arith;
        final_at = ap (λ h. (reset h r.memory).0) final ∙ null;
        coro_at = c.coro_at;
        n = c.n;
        parents_at = c.parents_at;
        count = ap (λ h. (reset h r.memory).1.counts a) final ∙ less ∙ ground arith;
        few = c.few;
        outside_at = c.outside_at;
        passed = λ h. absurd (ground (arith, c.passed h));
        log =
            ap (λ h. (reset h r.memory).1.destroyed) final
            ∙ reset-log a r.memory ne (ground arith)
            ∙ c.log;
      }

  pub resets-Counted :
      {r : Root}
      → r.main ≡ cleared
      → Counted a m r
      → Counted a m (record r {
        memory = (reset r.coro r.memory).1;
        coro = (reset r.coro r.memory).0;
        main = left;
      })
  resets-Counted {r} e c =
      let coro : r.coro ≡ own a = c.coro_at ∙ ground arith in
      let (over, none_left) = c.passed (ground arith) in
      let count : r.memory.counts a ≡ 1 = c.count ∙ ground arith in
      let (null, less) = reset-count a 0 r.memory ne count (omega arith) in
      record {
        self_at = c.self_at;
        final_at = c.final_at;
        coro_at = ap (λ h. (reset h r.memory).0) coro ∙ null;
        n = c.n;
        parents_at = c.parents_at;
        count = ap (λ h. (reset h r.memory).1.counts a) coro ∙ less ∙ ground arith;
        few = c.few;
        outside_at = c.outside_at ∙ ground arith;
        passed = λ h. (over, none_left);
        log =
            ap (λ h. (reset h r.memory).1.destroyed) coro
            ∙ reset-last a r.memory ne count
            ∙ ground (arith, c.log);
      }
