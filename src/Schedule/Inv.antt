-- ===== src/Schedule/Inv.antt =====
-- include/ResourceNode.hpp: the nodes, their entries and the counters between the steps of a
-- program.
use rg.Prelude.{
  ℕ, ◌^◌, ◌<◌, ◌==◌, List, [], ◌∷◌, ◌++◌, ◌≡◌, ◌≢◌, refl, ap, sym, subst, ◌∙◌, arith, Bool-cases,
  inl, inr, true, false,
}
use rg.Access.{AccessMode}
use rg.Node.{num_tasks}
use rg.Node.View.{view, IsValid}
use rg.Dispatch.{Store, Argument, plain, access, Coroutine, task_access}
use rg.Dispatch.Register.{resource_nodes, queues}
use rg.Deregister.Leaves.{Apart, Distinct, among, Apart-among}
use rg.Schedule.{Live, System, Below, wait_counters, entries_of, entries_at}
use rg.Schedule.Lists.{count, count-append, waiting_sum}
use rg.Schedule.Enqueued.{everyone, append_assoc}

pub record IsLive (N : ℕ) (s : Store) (t : Live) : Type 0 where
  pub counter : t.co.wait_counter_p ≢ 0
  pub nodes_of : t.listed ≡ resource_nodes t.args
  pub distinct : Distinct (resource_nodes t.args)
  pub below : Below N (resource_nodes t.args)
  pub small : s.world.counters t.co.wait_counter_p < 2 ^ 16
  pub counted :
      s.world.counters t.co.wait_counter_p ≡ waiting_sum N (queues s.nodes) t.co.wait_counter_p

abbrev pub Every {ℓ κ} : {A : Type ℓ} → (A → Type κ) → List A → Type κ
Every P [] = Unit
Every P (x ∷ xs) = P x × Every P xs

pub record Inv (N : ℕ) (s : System) : Type 0 where
  pub valid : (j : ℕ) → IsValid (s.store.nodes j)
  pub room : (j : ℕ) → (s.store.nodes j).last < num_tasks
  pub in_order : (j : ℕ) → everyone (view (s.store.nodes j)) ≡ entries_at j s.tasks
  pub own : Distinct (wait_counters s.tasks)
  pub live : Every (IsLive N s.store) s.tasks

module _ {ℓ κ} {A : Type ℓ} (P : A → Type κ) where
  pub Every-append : (xs ys : List A) → Every P xs → Every P ys → Every P (xs ++ ys)
  Every-append [] ys a b = b
  Every-append (x ∷ xs) ys a b = (a.0, Every-append xs ys a.1 b)

  pub Every-split : (xs ys : List A) → Every P (xs ++ ys) → Every P xs × Every P ys
  Every-split [] ys a = (tt, a)
  Every-split (x ∷ xs) ys a = let (l, r) = Every-split xs ys a.1 in ((a.0, l), r)

  pub Every-map {μ} :
      (Q : A → Type μ) → ((x : A) → P x → Q x) → (xs : List A) → Every P xs → Every Q xs
  Every-map Q f [] a = tt
  Every-map Q f (x ∷ xs) a = (f x a.0, Every-map Q f xs a.1)

pub wait_counters-append :
    (ts us : List Live) → wait_counters (ts ++ us) ≡ wait_counters ts ++ wait_counters us
wait_counters-append [] us = refl
wait_counters-append (t ∷ ts) us = ap (λ l. t.co.wait_counter_p ∷ l) (wait_counters-append ts us)

pub entries_at-append :
    (j : ℕ) (ts us : List Live) → entries_at j (ts ++ us) ≡ entries_at j ts ++ entries_at j us
entries_at-append j [] us = refl
entries_at-append j (t ∷ ts) us =
    ap (λ l. entries_of j t.co t.args ++ l) (entries_at-append j ts us)
    ∙ sym (append_assoc (entries_of j t.co t.args) (entries_at j ts) (entries_at j us))

pub Apart-split : (i : ℕ) (is js : List ℕ) → Apart i (is ++ js) → Apart i is × Apart i js
Apart-split i [] js a = (tt, a)
Apart-split i (k ∷ is) js a = let (l, r) = Apart-split i is js a.1 in ((a.0, l), r)

pub Apart-append : (i : ℕ) (is js : List ℕ) → Apart i is → Apart i js → Apart i (is ++ js)
Apart-append i [] js a b = b
Apart-append i (k ∷ is) js a b = (a.0, Apart-append i is js a.1 b)

pub Distinct-snoc : (i : ℕ) (is : List ℕ) → Distinct is → Apart i is → Distinct (is ++ (i ∷ []))
Distinct-snoc i [] d a = (tt, tt)
Distinct-snoc i (k ∷ is) d a =
    (Apart-append k is (i ∷ []) d.0 ((λ e. a.0 (sym e)), tt), Distinct-snoc i is d.1 a.1)

-- One number of a list without repetitions: the others are different, and have no repetitions.
pub Distinct-middle :
    (is : List ℕ) (i : ℕ) (js : List ℕ)
    → Distinct (is ++ (i ∷ js))
    → Apart i is × Apart i js × Distinct (is ++ js)
Distinct-middle [] i js d = (tt, d.0, d.1)
Distinct-middle (k ∷ is) i js d =
    let (l, r) = Apart-split k is (i ∷ js) d.0 in
    let (a, b, c) = Distinct-middle is i js d.1 in
    (((λ e. r.0 (sym e)), a), b, (Apart-append k is js l r.1, c))

-- A counter that no task of the list has is in none of their entries.
module _ (p j : ℕ) where
  pub entries_of-count :
      (co : Coroutine) (args : List Argument)
      → p ≢ co.wait_counter_p
      → count p (entries_of j co args) ≡ 0
  entries_of-count co [] ne = refl
  entries_of-count co (plain ∷ args) ne = entries_of-count co args ne
  entries_of-count co (access node mode ∷ args) ne = ground (arith, entries_of-count co args ne)

  pub entries_at-count :
      (ts : List Live) → Apart p (wait_counters ts) → count p (entries_at j ts) ≡ 0
  entries_at-count [] apart = refl
  entries_at-count (t ∷ ts) (ne, apart) = omega (
    arith,
    count-append p (entries_of j t.co t.args) (entries_at j ts),
    entries_of-count t.co t.args ne,
    entries_at-count ts apart,
  )

-- The entry of a task at a node that it accesses, and at one that it does not.
module _ (co : Coroutine) (j : ℕ) where
  pub entries_of-miss :
      (args : List Argument) → among j (resource_nodes args) ≡ false → entries_of j co args ≡ []
  entries_of-miss [] h = refl
  entries_of-miss (plain ∷ args) h = entries_of-miss args h
  entries_of-miss (access node mode ∷ args) h =
      let no : (node == j) ≡ false = ground arith in rw no (entries_of-miss args (ground arith))

  pub entries_of-hit :
      (args : List Argument)
      → Distinct (resource_nodes args)
      → among j (resource_nodes args) ≡ true
      → (mode : AccessMode) × (entries_of j co args ≡ task_access co mode ∷ [])
  entries_of-hit [] d h = cc
  entries_of-hit (plain ∷ args) d h = entries_of-hit args d h
  entries_of-hit (access node mode ∷ args) d h = elim (Bool-cases (node == j)) [
    | inl e ↦
        let same : node ≡ j = ground arith in
        let none : among j (resource_nodes args) ≡ false =
          subst (λ x. among x (resource_nodes args) ≡ false) same
            (Apart-among node (resource_nodes args) d.0) in
        (mode, rw (e, entries_of-miss args none) refl)
    | inr e ↦ let (m, f) = entries_of-hit args d.1 (ground arith) in (m, rw e f)
  ]
