-- ===== src/Schedule/Lists.antt =====
-- include/ResourceNode.hpp: sums over the nodes, and the entries of a wait counter in the queues.
use rg.Prelude.{
  ℕ, zero, suc, ◌+◌, ◌<◌, ◌≤◌, ◌==◌, if◌then◌else◌, List, [], ◌∷◌, ◌++◌, ◌≡◌, ◌≢◌, refl, arith,
  Bool-cases, inl, inr, true, false,
}
use rg.Node.{TaskAccess}
use rg.Node.Queue.{Queue}
use rg.Dispatch.Register.{set_queue}
use rg.Deregister.Leaves.{Distinct, among, Apart-among}
use rg.Schedule.{Below}

-- How many entries of the list have the wait counter `p`.
abbrev pub count : ℕ → List TaskAccess → ℕ
count p [] = 0
count p (t ∷ ts) = (if t.wait_counter_p == p then 1 else 0) + count p ts

pub count-append : (p : ℕ) (xs ys : List TaskAccess) → count p (xs ++ ys) ≡ count p xs + count p ys
count-append p [] ys = omega arith
count-append p (x ∷ xs) ys = omega (arith, count-append p xs ys)

abbrev pub sum_below : ℕ → (ℕ → ℕ) → ℕ
sum_below zero f = 0
sum_below (suc n) f = sum_below n f + f n

pub sum_below_cong : (n : ℕ) (f g : ℕ → ℕ) → ((j : ℕ) → f j ≡ g j) → sum_below n f ≡ sum_below n g
sum_below_cong zero f g e = refl
sum_below_cong (suc n) f g e = omega (arith, sum_below_cong n f g e, e n)

pub sum_below-zero : (n : ℕ) (f : ℕ → ℕ) → ((j : ℕ) → f j ≡ 0) → sum_below n f ≡ 0
sum_below-zero zero f e = refl
sum_below-zero (suc n) f e = omega (arith, sum_below-zero n f e, e n)

pub sum_below-part : (n : ℕ) (f : ℕ → ℕ) (i : ℕ) → i < n → f i ≤ sum_below n f
sum_below-part zero f i h = absurd (omega arith)
sum_below-part (suc n) f i h = elim (Bool-cases (i == n)) [
  | inl e ↦ let same : i ≡ n = ground arith in rw same (omega arith)
  | inr e ↦ let less : i < n = ground arith in omega (arith, sum_below-part n f i less)
]

-- Two functions that agree away from `i`.
module _ (f g : ℕ → ℕ) (i : ℕ) (agree : (j : ℕ) → i ≢ j → f j ≡ g j) where
  sum_below-above : (n : ℕ) → n ≤ i → sum_below n f ≡ sum_below n g
  sum_below-above zero h = refl
  sum_below-above (suc n) h = omega (arith, sum_below-above n (omega arith), agree n (omega arith))

  pub sum_below-differ : (n : ℕ) → i < n → sum_below n f + g i ≡ sum_below n g + f i
  sum_below-differ zero h = absurd (omega arith)
  sum_below-differ (suc n) h = elim (Bool-cases (i == n)) [
    | inl e ↦
        let same : i ≡ n = ground arith in rw same (omega (arith, sum_below-above n (omega arith)))
    | inr e ↦
        let less : i < n = ground arith in
        omega (arith, sum_below-differ n less, agree n (omega arith))
  ]

abbrev pub sum_over : List ℕ → (ℕ → ℕ) → ℕ
sum_over [] f = 0
sum_over (i ∷ is) f = f i + sum_over is f

-- A change at the nodes of a list, and at no other node, changes the sum by the changes there.
pub sum_below-among :
    (N : ℕ) (a b d : ℕ → ℕ) (is : List ℕ)
    → ((j : ℕ) → a j + d j ≡ b j)
    → Below N is
    → Distinct is
    → sum_below N (λ j. if among j is then a j else b j) + sum_over is d ≡ sum_below N b
sum_below-among N a b d [] part below apart = omega arith
sum_below-among N a b d (i ∷ is) part (low, below) (apart, distinct) =
    let f : ℕ → ℕ = λ j. if among j (i ∷ is) then a j else b j in
    let g : ℕ → ℕ = λ j. if among j is then a j else b j in
    let step = sum_below-differ f g i (λ j ne. ground arith) N low in
    let here : f i ≡ a i = ground arith in
    let there : g i ≡ b i = ground (arith, Apart-among i is apart) in
    omega (arith, step, here, there, part i, sum_below-among N a b d is part below distinct)

-- How many entries with the wait counter `p` wait at the nodes below `N`.
abbrev pub waiting_sum : ℕ → (ℕ → Queue) → ℕ → ℕ
waiting_sum N qs p = sum_below N (λ j. count p (qs j).waiting)

pub waiting_sum-set_queue :
    (N : ℕ) (qs : ℕ → Queue) (i : ℕ) (q : Queue) (p : ℕ)
    → i < N
    → waiting_sum N (set_queue qs i q) p + count p (qs i).waiting
      ≡ waiting_sum N qs p + count p q.waiting
waiting_sum-set_queue N qs i q p low =
    let f : ℕ → ℕ = λ j. count p (set_queue qs i q j).waiting in
    let g : ℕ → ℕ = λ j. count p (qs j).waiting in
    let same : (i == i) ≡ true = ground arith in
    let here : f i ≡ count p q.waiting = rw same refl in
    let other : (j : ℕ) → i ≢ j → f j ≡ g j =
      λ j ne. let no : (i == j) ≡ false = ground arith in rw no refl in
    omega (arith, sum_below-differ f g i other N low, here)
