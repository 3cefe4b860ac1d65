-- ===== src/InitTask/Get.antt =====
-- include/initTask.hpp: what `get` returns, and that it may wait for ever.
use rg.Prelude.{
  ℕ, zero, suc, ◌≢◌, ◌⊎◌, inl, inr, Option, true, false, none, some, ◌≡◌, refl, subst, ap, ◌∙◌,
}
use mathlib.Core.Option.{some-injective}
use rg.InitTask.{
  Promise, Getter, testing, waiting, asleep, taking, got, Runner, working, returning, done, State,
  start, get_step, wake_step, run_step, Reach, begin, get_moves, wakes, run_moves,
}

module _ {ℓ} {T : Type ℓ} (v : T) where
  abbrev promise_of : Runner T → Promise T
  promise_of working = record { result = none; task_done = false }
  promise_of returning = record { result = some v; task_done = false }
  promise_of done = record { result = some v; task_done = true }

  abbrev shape : Runner T → Getter T → State T
  shape r g = record { promise = promise_of r; getter = g; runner = r }

  -- What the getter has seen of the runner.
  data Fits : Runner T → Getter T → Type ℓ where
    fits_testing : (r : Runner T) → Fits r testing
    fits_waiting : (r : Runner T) → Fits r waiting
    fits_asleep : (r : Runner T) → Fits r asleep
    fits_taking : Fits done taking
    fits_got : Fits done (got v)

  record Inv (s : State T) : Type ℓ where
    runner_at : Runner T
    getter_at : Getter T
    same : shape runner_at getter_at ≡ s
    fits : Fits runner_at getter_at

  then_Inv : {s t : State T} → some s ≡ some t → Inv s → Inv t
  then_Inv {s} {t} e i = subst Inv (some-injective s t e) i

  at : (r : Runner T) (g : Getter T) → Fits r g → Inv (shape r g)
  at r g f = record { runner_at = r; getter_at = g; same = refl; fits = f }

  get_step-Inv :
      (r : Runner T) (g : Getter T) {t : State T} → Fits r g → get_step (shape r g) ≡ some t → Inv t
  unfolding get_step
  get_step-Inv working _ (fits_testing _) e = then_Inv e (at working waiting (fits_waiting working))
  get_step-Inv returning _ (fits_testing _) e =
      then_Inv e (at returning waiting (fits_waiting returning))
  get_step-Inv done _ (fits_testing _) e = then_Inv e (at done taking fits_taking)
  get_step-Inv working _ (fits_waiting _) e = then_Inv e (at working asleep (fits_asleep working))
  get_step-Inv returning _ (fits_waiting _) e =
      then_Inv e (at returning asleep (fits_asleep returning))
  get_step-Inv done _ (fits_waiting _) e = then_Inv e (at done taking fits_taking)
  get_step-Inv r _ (fits_asleep _) e = cc
  get_step-Inv _ _ fits_taking e = then_Inv e (at done (got v) fits_got)
  get_step-Inv _ _ fits_got e = cc

  wake_step-Inv :
      (r : Runner T) (g : Getter T) {t : State T}
      → Fits r g
      → wake_step (shape r g) ≡ some t
      → Inv t
  unfolding wake_step
  wake_step-Inv r _ (fits_asleep _) e = then_Inv e (at r waiting (fits_waiting r))
  wake_step-Inv r _ (fits_testing _) e = cc
  wake_step-Inv r _ (fits_waiting _) e = cc
  wake_step-Inv _ _ fits_taking e = cc
  wake_step-Inv _ _ fits_got e = cc

  run_step-Inv :
      (r : Runner T) (g : Getter T) {t : State T}
      → Fits r g
      → run_step v (shape r g) ≡ some t
      → Inv t
  unfolding run_step
  run_step-Inv working _ (fits_testing _) e =
      then_Inv e (at returning testing (fits_testing returning))
  run_step-Inv working _ (fits_waiting _) e =
      then_Inv e (at returning waiting (fits_waiting returning))
  run_step-Inv working _ (fits_asleep _) e =
      then_Inv e (at returning asleep (fits_asleep returning))
  run_step-Inv returning _ (fits_testing _) e = then_Inv e (at done testing (fits_testing done))
  run_step-Inv returning _ (fits_waiting _) e = then_Inv e (at done waiting (fits_waiting done))
  run_step-Inv returning _ (fits_asleep _) e = then_Inv e (at done asleep (fits_asleep done))
  run_step-Inv done g f e = cc

  start-Inv : Inv start
  unfolding start
  start-Inv = at working testing (fits_testing working)

  Reach-Inv : {s : State T} → Reach v s → Inv s
  Reach-Inv begin = start-Inv
  Reach-Inv (get_moves {s = s} {t = t} r e) =
      let i = Reach-Inv r in get_step-Inv i.runner_at i.getter_at i.fits (ap get_step i.same ∙ e)
  Reach-Inv (wakes {s = s} {t = t} r e) =
      let i = Reach-Inv r in wake_step-Inv i.runner_at i.getter_at i.fits (ap wake_step i.same ∙ e)
  Reach-Inv (run_moves {s = s} {t = t} r e) =
      let i = Reach-Inv r in
      run_step-Inv i.runner_at i.getter_at i.fits (ap (run_step v) i.same ∙ e)

  -- A step of the caller, which wakes spuriously if it is asleep, and some steps of it alone.
  abbrev pub caller_step : State T → Option (State T)
  caller_step s = elim (get_step s) [ some t ↦ some t | none ↦ wake_step s ]

  abbrev pub caller_run : ℕ → State T → State T
  caller_run zero s = s
  caller_run (suc k) s = elim (caller_step s) [ some t ↦ caller_run k t | none ↦ s ]

  -- The getter has not ended, or it has ended with the value, and the task is done.
  pub data Answers : Getter T → Runner T → Type ℓ where
    in_test : (r : Runner T) → Answers testing r
    in_wait : (r : Runner T) → Answers waiting r
    in_sleep : (r : Runner T) → Answers asleep r
    in_value : (r : Runner T) → Answers taking r
    with_value : Answers (got v) done

  Fits-Answers : (r : Runner T) (g : Getter T) → Fits r g → Answers g r
  Fits-Answers r _ (fits_testing _) = in_test r
  Fits-Answers r _ (fits_waiting _) = in_wait r
  Fits-Answers r _ (fits_asleep _) = in_sleep r
  Fits-Answers _ _ fits_taking = in_value done
  Fits-Answers _ _ fits_got = with_value

  Fits-ends :
      (r : Runner T) (g : Getter T)
      → Fits r g
      → (r ≢ done) ⊎ ((caller_run 3 (shape r g)).getter ≡ got v)
  unfolding get_step wake_step
  Fits-ends working g f = inl (λ e. cc)
  Fits-ends returning g f = inl (λ e. cc)
  Fits-ends done _ (fits_testing _) = inr refl
  Fits-ends done _ (fits_waiting _) = inr refl
  Fits-ends done _ (fits_asleep _) = inr refl
  Fits-ends done _ fits_taking = inr refl
  Fits-ends done _ fits_got = inr refl

  -- What the caller and the task do from a state on if the caller never wakes spuriously.
  pub data Onward (s : State T) : State T → Type ℓ where
    here : Onward s s
    get_goes : {t u : State T} → Onward s t → get_step t ≡ some u → Onward s u
    run_goes : {t u : State T} → Onward s t → run_step v t ≡ some u → Onward s u

-- In whatever order the steps of the caller and of the task that returns `v` come, and however often
-- the caller wakes spuriously in its wait: if `get` has ended, it has returned `v` and not thrown,
-- and the task is done. If the task is done, at most three more steps of the caller end `get` with `v`,
-- a spurious wake-up among them if the caller is asleep.
pub get_returns {ℓ} :
    {T : Type ℓ} (v : T) {s : State T}
    → Reach v s
    → Answers v s.getter s.runner × ((s.runner ≢ done) ⊎ ((caller_run v 3 s).getter ≡ got v))
get_returns v {s} r =
    let i = Reach-Inv v r in
    subst
      (λ x. Answers v x.getter x.runner × ((x.runner ≢ done) ⊎ ((caller_run v 3 x).getter ≡ got v)))
      i.same
      (Fits-Answers v i.runner_at i.getter_at i.fits, Fits-ends v i.runner_at i.getter_at i.fits)

-- Whatever value a task returns, an order of the steps of the caller and of the task, without any
-- spurious wake-up, leads to a state in which the task is done and the caller of `get` is asleep. There
-- neither has a step left, so that without a spurious wake-up `get` never ends, while with one the
-- caller ends it with the value.
pub get_asleep {ℓ} :
    {T : Type ℓ} (v : T)
    → (s : State T) × Onward v start s
      × (s.getter ≡ asleep)
      × (s.promise.task_done ≡ true)
      × (get_step s ≡ none)
      × (run_step v s ≡ none)
      × ((caller_run v 3 s).getter ≡ got v)
unfolding start get_step wake_step run_step
get_asleep v = (
  shape v done asleep,
  run_goes (run_goes (get_goes (get_goes here refl) refl) refl) refl,
  refl,
  refl,
  refl,
  refl,
  refl,
)
