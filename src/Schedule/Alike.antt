-- ===== src/Schedule/Alike.antt =====
-- include/dispatchTask.hpp: the counters and the handles of tasks, and their entries in the
-- queues.
use mathlib.Core.List.Memᴰ.{Memᴰ, head, tail}
use rg.Prelude.{ℕ, ◌==◌, List, [], ◌∷◌, ◌≡◌, ◌≢◌, ap, sym, ◌∙◌, subst, arith, Bool-cases, inl, inr}
use rg.Dispatch.{Argument, plain, access}
use rg.Deregister.Leaves.{Apart, Distinct}
use rg.Schedule.{Live, handles, wait_counters, entries_of, entries_at}
use rg.Schedule.Inv.{Every, Every-append}
use rg.Schedule.Notified.{Agrees}

-- Two tasks with the same counter have the same handle.
abbrev pub Alike : Live → Live → Type 0
Alike u t = (t.co.wait_counter_p == u.co.wait_counter_p) ≡ (t.co.handle == u.co.handle)

module _ (u : Live) (j : ℕ) where
  entries_of-Agrees :
      (t : Live) (args : List Argument)
      → Alike u t
      → Every (Agrees u.co.wait_counter_p u.co.handle) (entries_of j t.co args)
  entries_of-Agrees t [] a = tt
  entries_of-Agrees t (plain ∷ args) a = entries_of-Agrees t args a
  entries_of-Agrees t (access node mode ∷ args) a = elim (Bool-cases (node == j)) [
    | inl e ↦ rw e (a, entries_of-Agrees t args a)
    | inr e ↦ rw e (entries_of-Agrees t args a)
  ]

  pub entries_at-Agrees :
      (ts : List Live)
      → Every (Alike u) ts
      → Every (Agrees u.co.wait_counter_p u.co.handle) (entries_at j ts)
  entries_at-Agrees [] all = tt
  entries_at-Agrees (t ∷ ts) all =
      Every-append (Agrees u.co.wait_counter_p u.co.handle) (entries_of j t.co t.args)
        (entries_at j ts) (entries_of-Agrees t t.args all.0) (entries_at-Agrees ts all.1)

unlike :
    (u t : Live) → u.co.wait_counter_p ≢ t.co.wait_counter_p → u.co.handle ≢ t.co.handle → Alike u t
unlike u t a b = ground arith

all_unlike :
    (u : Live) (ts : List Live)
    → Apart u.co.wait_counter_p (wait_counters ts)
    → Apart u.co.handle (handles ts)
    → Every (Alike u) ts
all_unlike u [] a b = tt
all_unlike u (t ∷ ts) a b = (unlike u t a.0 b.0, all_unlike u ts a.1 b.1)

module _ (u : Live) where
  pub wait_counters-ne :
      (p : ℕ) (ts : List Live) → Apart p (wait_counters ts) → Memᴰ u ts → p ≢ u.co.wait_counter_p
  wait_counters-ne p [] a m = elim m [ ]
  wait_counters-ne p (t ∷ ts) a (head e) = λ q. a.0 (q ∙ ap (λ v. v.co.wait_counter_p) e)
  wait_counters-ne p (t ∷ ts) a (tail m) = wait_counters-ne p ts a.1 m

  handles-ne : (h : ℕ) (ts : List Live) → Apart h (handles ts) → Memᴰ u ts → h ≢ u.co.handle
  handles-ne h [] a m = elim m [ ]
  handles-ne h (t ∷ ts) a (head e) = λ q. a.0 (q ∙ ap (λ v. v.co.handle) e)
  handles-ne h (t ∷ ts) a (tail m) = handles-ne h ts a.1 m

  -- Tasks with counters and handles of their own.
  pub all_Alike :
      (ts : List Live)
      → Distinct (wait_counters ts)
      → Distinct (handles ts)
      → Memᴰ u ts
      → Every (Alike u) ts
  all_Alike [] d e m = tt
  all_Alike (t ∷ ts) d e (head q) =
      subst (λ v. Every (Alike v) (t ∷ ts)) (sym q) (ground arith, all_unlike t ts d.0 e.0)
  all_Alike (t ∷ ts) d e (tail m) =
      let a = wait_counters-ne t.co.wait_counter_p ts d.0 m in
      let b = handles-ne t.co.handle ts e.0 m in
      (unlike u t (λ q. a (sym q)) (λ q. b (sym q)), all_Alike ts d.1 e.1 m)
