-- ===== src/Schedule/Compatible.antt =====
-- include/dispatchTask.hpp and include/resources.hpp: a test for conflicts between what tasks
-- were called with, which knows nothing of queues.
use mathlib.Core.List.Memᴰ.{Memᴰ, head, tail}
use rg.Prelude.{
  ℕ, ◌==◌, if◌then◌else◌, Bool, true, false, not, ◌&&◌, List, [], ◌∷◌, ◌++◌, ◌≡◌, refl, ap, sym,
  ◌∙◌, subst, arith, Bool-cases, inl, inr,
}
use rg.Access.{AccessMode, is_serial_access}
use rg.Node.{TaskAccess}
use rg.Node.Queue.{parallel, admits}
use rg.Node.Sound.{parallel_sym}
use rg.Dispatch.{Argument, plain, access, Coroutine, task_access}
use rg.Schedule.{Live, entries_of, entries_at}

-- An access of the one task goes with those of the other one to the same resource.
abbrev pub fits : ℕ → AccessMode → List Argument → Bool
fits node mode [] = true
fits node mode (plain ∷ args) = fits node mode args
fits node mode (access k mode' ∷ args) =
    (if k == node then not (is_serial_access mode mode') else true) && fits node mode args

abbrev pub compatible : List Argument → List Argument → Bool
compatible [] args = true
compatible (plain ∷ first) args = compatible first args
compatible (access node mode ∷ first) args = fits node mode args && compatible first args

-- The call has no conflict with any task of the list.
abbrev pub unrivalled : List Live → List Argument → Bool
unrivalled [] args = true
unrivalled (t ∷ ts) args = compatible t.args args && unrivalled ts args

module _ (node : ℕ) (mode : AccessMode) where
  fits-elim :
      (mode' : AccessMode) (args : List Argument)
      → fits node mode args ≡ true
      → Memᴰ (access node mode') args
      → is_serial_access mode mode' ≡ false
  fits-elim mode' [] h m = elim m [ ]
  fits-elim mode' (plain ∷ args) h (head e) = cc
  fits-elim mode' (access k mode'' ∷ args) h (head e) =
      let same : k ≡ node = cc in
      let alike : mode'' ≡ mode' = cc in
      let hit : (k == node) ≡ true = ground arith in
      subst (λ x. is_serial_access mode x ≡ false) alike (ground arith)
  fits-elim mode' (plain ∷ args) h (tail m) = fits-elim mode' args h m
  fits-elim mode' (access k mode'' ∷ args) h (tail m) = fits-elim mode' args (ground arith) m

  fits-intro :
      (args : List Argument)
      → ((mode' : AccessMode) → Memᴰ (access node mode') args → is_serial_access mode mode' ≡ false)
      → fits node mode args ≡ true
  fits-intro [] f = refl
  fits-intro (plain ∷ args) f = fits-intro args (λ mode' m. f mode' (tail m))
  fits-intro (access k mode' ∷ args) f =
      let rest = fits-intro args (λ mode'' m. f mode'' (tail m)) in
      elim (Bool-cases (k == node)) [
        | inl e ↦
            let same : node ≡ k = ground arith in
            let free = f mode' (head (ap (λ j. access j mode') same)) in rw (e, free, rest) refl
        | inr e ↦ rw (e, rest) refl
      ]

compatible-intro :
    (first args : List Argument)
    → ((node : ℕ) (mode mode' : AccessMode)
        → Memᴰ (access node mode) first
        → Memᴰ (access node mode') args
        → is_serial_access mode mode' ≡ false)
    → compatible first args ≡ true
compatible-intro [] args f = refl
compatible-intro (plain ∷ first) args f =
    compatible-intro first args (λ node mode mode' m. f node mode mode' (tail m))
compatible-intro (access node mode ∷ first) args f =
    rw
      (
        fits-intro node mode args (λ mode'. f node mode mode' (head refl)),
        compatible-intro first args (λ node mode mode' m. f node mode mode' (tail m)),
      )
      refl

pub unrivalled-intro :
    (ts : List Live) (args : List Argument)
    → ((t : Live) (node : ℕ) (mode mode' : AccessMode)
        → Memᴰ t ts
        → Memᴰ (access node mode) t.args
        → Memᴰ (access node mode') args
        → is_serial_access mode mode' ≡ false)
    → unrivalled ts args ≡ true
unrivalled-intro [] args f = refl
unrivalled-intro (t ∷ ts) args f =
    rw
      (
        compatible-intro t.args args (λ node mode mode'. f t node mode mode' (head refl)),
        unrivalled-intro ts args (λ u node mode mode' m. f u node mode mode' (tail m)),
      )
      refl

-- A compatible task lets the access of the other one run beside its own.
module _ (co : Coroutine) (args : List Argument) (node : ℕ) (mode : AccessMode)
    (asks : Memᴰ (access node mode) args) where
  compatible-admits :
      (own : Coroutine) (first : List Argument)
      → compatible first args ≡ true
      → admits (entries_of node own first) (task_access co mode) ≡ true
  compatible-admits own [] h = refl
  compatible-admits own (plain ∷ first) h = compatible-admits own first h
  compatible-admits own (access k mode' ∷ first) h =
      let rest = compatible-admits own first (ground arith) in
      elim (Bool-cases (k == node)) [
        | inl e ↦
            let same : k ≡ node = ground arith in
            let free =
              fits-elim k mode' mode args (ground arith)
                (subst (λ j. Memᴰ (access j mode) args) (sym same) asks) in
            let beside : parallel (task_access co mode) (task_access own mode') ≡ true =
              parallel_sym (task_access co mode) (task_access own mode') ∙ ap not free in
            rw e (ground arith)
        | inr e ↦ rw e rest
      ]

  admits-append :
      (xs ys : List TaskAccess) (t : TaskAccess)
      → admits xs t ≡ true
      → admits ys t ≡ true
      → admits (xs ++ ys) t ≡ true
  admits-append [] ys t a b = b
  admits-append (x ∷ xs) ys t a b = ground (arith, admits-append xs ys t)

  pub unrivalled-admits :
      (ts : List Live)
      → unrivalled ts args ≡ true
      → admits (entries_at node ts) (task_access co mode) ≡ true
  unrivalled-admits [] h = refl
  unrivalled-admits (t ∷ ts) h =
      admits-append (entries_of node t.co t.args) (entries_at node ts) (task_access co mode)
        (compatible-admits t.co t.args (ground arith)) (unrivalled-admits ts (ground arith))
