-- ===== src/Await/Resume.antt =====
-- The waiter goes on exactly once, after the task is done, in every order of the steps.
use rg.Prelude.{
  ℕ, ◌+◌, ◌≤◌, ◌<◌, ◌≡◌, ◌≢◌, ◌⊎◌, inl, inr, refl, false, none, some, Option, Option-cases, arith,
}
use rg.Await.{
  Kind, sync_ready, Waiter, asking, storing, swapping, suspended, went_on, Child, unborn, working,
  done, State, start, waiter_step, child_step, Reach, begin, waiter_moves, child_moves,
}

-- What the promise holds, by where the two threads stand.
abbrev Agrees : ℕ → Child → Waiter → State → Type 0
Agrees h unborn asking s = (s.promise.working_state ≡ 1) × (s.wakings ≡ 0)
Agrees h unborn storing s = (s.promise.working_state ≡ 1) × (s.wakings ≡ 0)
Agrees h unborn swapping s =
    (s.promise.working_state ≡ 1) × (s.promise.continuation_handle ≡ some h) × (s.wakings ≡ 0)
Agrees h unborn _ s = ⊥
Agrees h working asking s = (s.promise.working_state ≡ 1) × (s.wakings ≡ 0)
Agrees h working storing s = (s.promise.working_state ≡ 1) × (s.wakings ≡ 0)
Agrees h working swapping s =
    (s.promise.working_state ≡ 1) × (s.promise.continuation_handle ≡ some h) × (s.wakings ≡ 0)
Agrees h working suspended s =
    (s.promise.working_state ≡ 2) × (s.promise.continuation_handle ≡ some h) × (s.wakings ≡ 0)
Agrees h working went_on s = ⊥
Agrees h done suspended s = ⊥
Agrees h done went_on s = s.wakings ≡ 1
Agrees h done _ s = (s.promise.working_state ≡ 0) × (s.wakings ≡ 0)

-- A task that the waiter starts has not begun while the waiter is not suspended.
abbrev Begun : Kind → Child → Waiter → Type 0
Begun sync_ready working suspended = Unit
Begun sync_ready working _ = ⊥
Begun sync_ready unborn _ = Unit
Begun sync_ready done went_on = Unit
Begun sync_ready done _ = ⊥
Begun _ unborn _ = ⊥
Begun _ _ _ = Unit

record Inv (kind : Kind) (h : ℕ) (s : State) : Type 0 where
  agrees : Agrees h s.child s.waiter s
  begun : Begun kind s.child s.waiter
  whole : s.crashed ≡ false

waiter_step-Inv :
    (kind : Kind) (h : ℕ) (w : Waiter) (c : Child) (s t : State)
    → s.waiter ≡ w
    → s.child ≡ c
    → Inv kind h s
    → waiter_step kind h s ≡ some t
    → Inv kind h t
unfolding waiter_step
waiter_step-Inv kind h w c s t p q i e = ground arith

child_step-Inv :
    (kind : Kind) (h : ℕ) (w : Waiter) (c : Child) (s t : State)
    → s.waiter ≡ w
    → s.child ≡ c
    → Inv kind h s
    → child_step s ≡ some t
    → Inv kind h t
unfolding child_step
child_step-Inv kind h w c s t p q i e = ground arith

start-Inv : (kind : Kind) (h : ℕ) → Inv kind h (start kind)
start-Inv kind h = ground arith

Reach-Inv : {kind : Kind} {h : ℕ} {s : State} → Reach kind h s → Inv kind h s
Reach-Inv {kind} {h} begin = start-Inv kind h
Reach-Inv {kind} {h} (waiter_moves {s = s} {t = t} r e) =
    waiter_step-Inv kind h s.waiter s.child s t refl refl (Reach-Inv r) e
Reach-Inv {kind} {h} (child_moves {s = s} {t = t} r e) =
    child_step-Inv kind h s.waiter s.child s t refl refl (Reach-Inv r) e

-- In every reachable state the waiter has been made to go on at most once, no null handle has been
-- resumed, and either the waiter has not gone on, or it did so once and the task is done.
pub resumed_once :
    {kind : Kind} {h : ℕ} {s : State}
    → Reach kind h s
    → (s.wakings ≤ 1)
      × (s.crashed ≡ false)
      × ((s.waiter ≢ went_on) ⊎ ((s.child ≡ done) × (s.wakings ≡ 1)))
resumed_once {kind} {h} {s} r =
    let i = Reach-Inv r in
    (once s.waiter s.child refl refl i, i.whole, ahead s.waiter s.child refl refl i)
  where
    once : (w : Waiter) (c : Child) → s.waiter ≡ w → s.child ≡ c → Inv kind h s → s.wakings ≤ 1
    once w c p q i = ground arith

    ahead :
        (w : Waiter) (c : Child)
        → s.waiter ≡ w
        → s.child ≡ c
        → Inv kind h s
        → (s.waiter ≢ went_on) ⊎ ((s.child ≡ done) × (s.wakings ≡ 1))
    ahead w c p q i = ground arith

-- How many steps are left at most.
abbrev waiter_left : Waiter → ℕ
waiter_left asking = 3
waiter_left storing = 2
waiter_left swapping = 1
waiter_left _ = 0

abbrev child_left : Child → ℕ
child_left done = 0
child_left _ = 1

abbrev pub steps_left : State → ℕ
steps_left s = waiter_left s.waiter + child_left s.child

waiter_step-left :
    (kind : Kind) (h : ℕ) (w : Waiter) (c : Child) (s t : State)
    → s.waiter ≡ w
    → s.child ≡ c
    → Inv kind h s
    → waiter_step kind h s ≡ some t
    → steps_left t < steps_left s
unfolding waiter_step
waiter_step-left kind h w c s t p q i e = ground arith

child_step-left :
    (kind : Kind) (h : ℕ) (w : Waiter) (c : Child) (s t : State)
    → s.waiter ≡ w
    → s.child ≡ c
    → Inv kind h s
    → child_step s ≡ some t
    → steps_left t < steps_left s
unfolding child_step
child_step-left kind h w c s t p q i e = ground arith

not_stuck :
    (kind : Kind) (h : ℕ) (w : Waiter) (c : Child) (s : State)
    → s.waiter ≡ w
    → s.child ≡ c
    → Inv kind h s
    → s.waiter ≢ went_on
    → waiter_step kind h s ≡ none
    → child_step s ≡ none
    → ⊥
unfolding waiter_step child_step
not_stuck kind h w c s p q i ne a b = ground arith

steps_left-le : (h : ℕ) (w : Waiter) (c : Child) → waiter_left w + child_left c ≤ 4
steps_left-le h w c = ground arith

-- A step, where it can be taken, leaves fewer.
abbrev pub Fewer : ℕ → Option State → Type 0
Fewer n none = Unit
Fewer n (some t) = steps_left t < n

waiter_step-Fewer :
    (kind : Kind) (h : ℕ) (s : State) (o : Option State)
    → Inv kind h s
    → waiter_step kind h s ≡ o
    → Fewer (steps_left s) o
waiter_step-Fewer kind h s none i e = tt
waiter_step-Fewer kind h s (some t) i e = waiter_step-left kind h s.waiter s.child s t refl refl i e

child_step-Fewer :
    (kind : Kind) (h : ℕ) (s : State) (o : Option State)
    → Inv kind h s
    → child_step s ≡ o
    → Fewer (steps_left s) o
child_step-Fewer kind h s none i e = tt
child_step-Fewer kind h s (some t) i e = child_step-left kind h s.waiter s.child s t refl refl i e

-- A waiter that has not gone on is never left behind: in every reachable state in which it has not,
-- it or the task can take a step. `steps_left` is at most 4 there, and each of the steps that the two can
-- take, whichever is taken, leaves it smaller. So after at most four the waiter has gone on.
pub waiter_progress :
    {kind : Kind} {h : ℕ} {s : State}
    → Reach kind h s
    → s.waiter ≢ went_on
    → ((t : State) × ((waiter_step kind h s ≡ some t) ⊎ (child_step s ≡ some t)))
      × (steps_left s ≤ 4)
      × Fewer (steps_left s) (waiter_step kind h s)
      × Fewer (steps_left s) (child_step s)
waiter_progress {kind} {h} {s} r ne =
    let i = Reach-Inv r in
    (
      elim (Option-cases (waiter_step kind h s)) [
        | inr (t, e) ↦ (t, inl e)
        | inl a ↦ elim (Option-cases (child_step s)) [
          | inr (t, e) ↦ (t, inr e)
          | inl b ↦ absurd (not_stuck kind h s.waiter s.child s refl refl i ne a b)
        ]
      ],
      steps_left-le h s.waiter s.child,
      waiter_step-Fewer kind h s (waiter_step kind h s) i refl,
      child_step-Fewer kind h s (child_step s) i refl,
    )
