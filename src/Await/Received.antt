-- ===== src/Await/Received.antt =====
-- include/Task.hpp: the waiter receives what the task returned.
use rg.Prelude.{
  ℕ, true, none, some, ◌≡◌, ◌≢◌, ◌⊎◌, ◌∙◌, ◌+◌, ◌<◌, ap, if◌then◌else◌, Bool-cases, Option-cases,
  sym, subst, inl, inr, refl, arith,
}
use rg.Await.{
  Kind, State, start, Child, unborn, working, done, Waiter, asking, storing, swapping, suspended,
  went_on, is_ready, suspend_result, exchange_waiting, get_await_ready, waiter_step, child_step,
  Reach, begin, waiter_moves, child_moves,
}
use rg.Await.Resume.{resumed_once, Fewer, steps_left, waiter_progress}
use rg.Await.Value.{
  Valued, new_valued, return_value, await_resume, Step, returns, ends, waits, resumes, Runs, begins,
  goes_on,
}

some-injective {ℓ} : {A : Type ℓ} {x y : A} → some x ≡ some y → x ≡ y
some-injective e = cc

-- The waiter does not end the task.
waiter_step-child :
    (kind : Kind) (h : ℕ) (w : Waiter) (s t : State)
    → s.waiter ≡ w
    → waiter_step kind h s ≡ some t
    → t.child ≡ done
    → s.child ≡ done
unfolding waiter_step is_ready suspend_result exchange_waiting get_await_ready
waiter_step-child kind h w s t p e d = ground arith

record Kept {ℓ} {T : Type ℓ} (kind : Kind) (h : ℕ) (v : T) (s : Valued T) : Type ℓ where
  reached : Reach kind h s.state
  ended : s.state.child ≡ done → s.returned ≡ true
  kept : s.returned ≡ true → s.result ≡ v
  got : (x : T) → s.received ≡ some x → x ≡ v

start-child : (kind : Kind) → (start kind).child ≢ done
start-child kind = ground arith

module _ {ℓ} {T : Type ℓ} (kind : Kind) (h : ℕ) (default v : T) where
  new_valued-Kept : Kept kind h v (new_valued kind default)
  unfolding new_valued
  new_valued-Kept = record {
    reached = begin;
    ended = λ e. absurd (start-child kind e);
    kept = λ e. cc;
    got = λ x e. cc;
  }

  went_on-done : (s : State) → Reach kind h s → s.waiter ≡ went_on → s.child ≡ done
  went_on-done s r e = elim (resumed_once r).2 [ inl n ↦ absurd (n e) | inr (d, _) ↦ d ]

  Step-Kept : {s t : Valued T} → Step kind h v s t → Kept kind h v s → Kept kind h v t
  unfolding return_value await_resume
  Step-Kept (returns w f) k = record {
    reached = k.reached;
    ended = λ e. refl;
    kept = λ e. refl;
    got = k.got;
  }
  Step-Kept (ends r e) k = record {
    reached = child_moves k.reached e;
    ended = λ d. r;
    kept = k.kept;
    got = k.got;
  }
  Step-Kept {s} (waits {t} e) k = record {
    reached = waiter_moves k.reached e;
    ended = λ d. k.ended (waiter_step-child kind h s.state.waiter s.state t refl e d);
    kept = k.kept;
    got = k.got;
  }
  Step-Kept {s} (resumes w f) k = record {
    reached = k.reached;
    ended = k.ended;
    kept = k.kept;
    got = λ x e. sym (some-injective e) ∙ k.kept (k.ended (went_on-done s.state k.reached w));
  }

  Runs-Kept : {s : Valued T} → Runs kind h default v s → Kept kind h v s
  Runs-Kept begins = new_valued-Kept
  Runs-Kept (goes_on r st) = Step-Kept st (Runs-Kept r)

child_step-working : (c : Child) (s t : State) → s.child ≡ c → child_step s ≡ some t → c ≡ working
unfolding child_step
child_step-working unborn s t p e = absurd (ground arith)
child_step-working working s t p e = refl
child_step-working done s t p e = absurd (ground arith)

-- The steps that are left at most.
abbrev pub all_left {ℓ} : {T : Type ℓ} → Valued T → ℕ
all_left s =
    steps_left s.state + (if s.returned then 0 else 1) + elim s.received [ none ↦ 1 | some _ ↦ 0 ]

module _ {ℓ} {T : Type ℓ} (kind : Kind) (h : ℕ) (v : T) where
  abbrev pub Goes : Valued T → Type ℓ
  Goes s = (t : Valued T) × Step kind h v s t × (all_left t < all_left s)

  child-Goes :
      (s : Valued T) (t : State)
      → child_step s.state ≡ some t
      → steps_left t < steps_left s.state
      → Goes s
  unfolding return_value
  child-Goes s t e lt = elim (Bool-cases s.returned) [
    | inl yet ↦ (record s { state = t }, ends yet e, omega arith)
    | inr not_yet ↦
        let w = child_step-working s.state.child s.state t refl e in
        (return_value v s, returns w not_yet, rw not_yet (omega arith))
  ]

  waiting-Goes : (s : Valued T) → Reach kind h s.state → s.state.waiter ≢ went_on → Goes s
  waiting-Goes s r n =
      let ((t, which), _, waiter_fewer, child_fewer) = waiter_progress r n in
      elim which [
        | inl e ↦
            let lt : steps_left t < steps_left s.state =
              subst (Fewer (steps_left s.state)) e waiter_fewer in
            (record s { state = t }, waits e, omega arith)
        | inr e ↦ child-Goes s t e (subst (Fewer (steps_left s.state)) e child_fewer)
      ]

  resume-Goes : (s : Valued T) → s.state.waiter ≡ went_on → s.received ≡ none → Goes s
  unfolding await_resume
  resume-Goes s w e = (await_resume s, resumes w e, rw e (omega arith))

is_on : (w : Waiter) → (w ≡ went_on) ⊎ (w ≢ went_on)
is_on went_on = inl refl
is_on asking = inr (λ e. cc)
is_on storing = inr (λ e. cc)
is_on swapping = inr (λ e. cc)
is_on suspended = inr (λ e. cc)

-- In whatever order the waiter and the task take their steps, and however the awaiter came to be:
-- either `await_resume` has given the waiter the value that the task returned, or it has given
-- nothing yet and a step can be taken that leaves fewer of at most six.
pub received_lem {ℓ} :
    {T : Type ℓ} {kind : Kind} {h : ℕ} {default v : T} {s : Valued T}
    → Runs kind h default v s
    → (s.received ≡ some v) ⊎ ((s.received ≡ none) × Goes kind h v s)
received_lem {kind} {h} {default} {v} {s} r =
    let k = Runs-Kept kind h default v r in
    elim (Option-cases s.received) [
      | inr (x, e) ↦ inl (e ∙ ap some (k.got x e))
      | inl e ↦ elim (is_on s.state.waiter) [
        | inl w ↦ inr (e, resume-Goes kind h v s w e)
        | inr n ↦ inr (e, waiting-Goes kind h v s k.reached n)
      ]
    ]
