-- ===== src/Handle/Counted.antt =====
-- The counter of a coroutine is the number of the handles that share it, and the coroutine is
-- destroyed when the last of them goes.
use rg.Prelude.{
  ℕ, zero, suc, ◌+◌, ◌^◌, ◌==◌, ◌<◌, ◌≤◌, ◌≡◌, ◌≢◌, if◌then◌else◌, ◌&&◌, Bool, ltb, List, [], ◌∷◌,
  ◌++◌, length, length-set, get_or, get_or-set_self, get_or-set_ne, set, arith,
}
use rg.Handle.{
  Handle, null_handle, Program, slot, Op, adopt, copy_new, move_new, assign, move_in, reset_slot,
  destruct, run_op,
}

abbrev pub shares : ℕ → Handle → ℕ
shares a h = if h.ref_count == a then 1 else 0

-- How many variables share coroutine `a`.
unfoldable pub holders : ℕ → List Handle → ℕ
holders a [] = 0
holders a (h ∷ hs) = shares a h + holders a hs

-- How often `a` stands in the list.
unfoldable pub times : ℕ → List ℕ → ℕ
times a [] = 0
times a (x ∷ xs) = (if x == a then 1 else 0) + times a xs

times-snoc :
    (a x : ℕ) (xs : List ℕ) → times a (xs ++ (x ∷ [])) ≡ times a xs + (if x == a then 1 else 0)
unfolding times
times-snoc a x [] = omega arith
times-snoc a x (y ∷ xs) = omega (arith, times-snoc a x xs)

holders-set :
    (a : ℕ) (hs : List Handle) (i : ℕ) (h : Handle)
    → i < length hs
    → holders a (set hs i h) + shares a (get_or hs i null_handle) ≡ holders a hs + shares a h
unfolding holders
holders-set a [] i h b = absurd (omega arith)
holders-set a (x ∷ hs) zero h b = omega arith
holders-set a (x ∷ hs) (suc i) h b = omega (arith, holders-set a hs i h (omega arith))

holders-le : (a : ℕ) (hs : List Handle) → holders a hs ≤ length hs
unfolding holders
holders-le a [] = omega arith
holders-le a (h ∷ hs) = ground (arith, holders-le a hs)

pub record IsCounted (p : Program) : Type 0 where
  pub few : length p.slots < 2 ^ 32
  pub counted : (a : ℕ) → a ≢ 0 → p.memory.counts a ≡ holders a p.slots
  pub paired : (i : ℕ) → (slot p i).ref_count ≢ 0 → (slot p i).address ≡ (slot p i).ref_count

-- When an operation makes sense: the variables exist, a new object is made where there is none, and
-- a new coroutine has no handle yet.
abbrev pub Allowed : Op → Program → Type 0
Allowed (adopt i a) p =
    (i < length p.slots) × ((slot p i).ref_count ≡ 0) × (a ≢ 0) × (holders a p.slots ≡ 0)
Allowed (copy_new i j) p =
    (i < length p.slots) × (j < length p.slots) × (i ≢ j) × ((slot p i).ref_count ≡ 0)
Allowed (move_new i j) p =
    (i < length p.slots) × (j < length p.slots) × (i ≢ j) × ((slot p i).ref_count ≡ 0)
Allowed (assign i j) p = (i < length p.slots) × (j < length p.slots)
Allowed (move_in i j) p = (i < length p.slots) × (j < length p.slots)
Allowed (reset_slot i) p = i < length p.slots
Allowed (destruct i) p = i < length p.slots

-- Whether the step from the first program to the second took the last handle of `a` away.
abbrev pub lost : ℕ → Program → Program → Bool
lost a p p' = ltb 0 (holders a p.slots) && (holders a p'.slots == 0)

module _ (p : Program) (c : IsCounted p) (a : ℕ) (nonzero : a ≢ 0) where
  counted_after :
      (op : Op) → Allowed op p → (run_op op p).memory.counts a ≡ holders a (run_op op p).slots
  unfolding run_op
  counted_after (adopt i b) ok =
      ground (arith, c.counted a, holders-set a p.slots i (record { address = b; ref_count = b }))
  counted_after (copy_new i j) ok = ground (
    arith,
    c.few,
    c.counted a,
    holders-set a p.slots i (slot p j),
    holders-le a (set p.slots i (slot p j)),
    length-set p.slots i (slot p j),
  )
  counted_after (move_new i j) ok = ground (
    arith,
    c.counted a,
    holders-set a p.slots j null_handle,
    holders-set a (set p.slots j null_handle) i (slot p j),
    length-set p.slots j null_handle,
    get_or-set_ne p.slots j i null_handle null_handle,
  )
  counted_after (assign i j) ok = ground (
    arith,
    c.few,
    c.counted a,
    holders-set a p.slots i (slot p j),
    holders-set a p.slots i null_handle,
    holders-le a p.slots,
    holders-le a (set p.slots i (slot p j)),
    length-set p.slots i (slot p j),
  )
  counted_after (move_in i j) ok = ground (
    arith,
    c.few,
    c.counted a,
    holders-set a p.slots i null_handle,
    holders-set a p.slots j null_handle,
    holders-set a (set p.slots j null_handle) i (slot p j),
    length-set p.slots j null_handle,
    get_or-set_ne p.slots j i null_handle null_handle,
    holders-le a p.slots,
  )
  counted_after (reset_slot i) ok =
      ground (arith, c.few, c.counted a, holders-set a p.slots i null_handle, holders-le a p.slots)
  counted_after (destruct i) ok =
      ground (arith, c.few, c.counted a, holders-set a p.slots i null_handle, holders-le a p.slots)

  destroyed_after :
      (op : Op)
      → Allowed op p
      → times a (run_op op p).memory.destroyed
        ≡ times a p.memory.destroyed + (if lost a p (run_op op p) then 1 else 0)
  unfolding run_op
  destroyed_after (adopt i b) ok =
      ground (arith, holders-set a p.slots i (record { address = b; ref_count = b }))
  destroyed_after (copy_new i j) ok = ground (arith, holders-set a p.slots i (slot p j))
  destroyed_after (move_new i j) ok = ground (
    arith,
    holders-set a p.slots j null_handle,
    holders-set a (set p.slots j null_handle) i (slot p j),
    length-set p.slots j null_handle,
    get_or-set_ne p.slots j i null_handle null_handle,
  )
  destroyed_after (assign i j) ok = ground (
    arith,
    c.few,
    c.counted a,
    c.paired i,
    times-snoc a (slot p i).address p.memory.destroyed,
    holders-set a p.slots i (slot p j),
    holders-set a p.slots i null_handle,
    holders-set a (set p.slots i null_handle) j null_handle,
    length-set p.slots i null_handle,
    get_or-set_ne p.slots i j null_handle null_handle,
  )
  destroyed_after (move_in i j) ok = ground (
    arith,
    c.counted a,
    c.paired i,
    times-snoc a (slot p i).address p.memory.destroyed,
    holders-set a p.slots i null_handle,
    holders-set a p.slots j null_handle,
    holders-set a (set p.slots j null_handle) i (slot p j),
    length-set p.slots j null_handle,
    get_or-set_ne p.slots j i null_handle null_handle,
  )
  destroyed_after (reset_slot i) ok = ground (
    arith,
    c.counted a,
    c.paired i,
    times-snoc a (slot p i).address p.memory.destroyed,
    holders-set a p.slots i null_handle,
  )
  destroyed_after (destruct i) ok = ground (
    arith,
    c.counted a,
    c.paired i,
    times-snoc a (slot p i).address p.memory.destroyed,
    holders-set a p.slots i null_handle,
  )

get_or-set_cases :
    (hs : List Handle) (i k : ℕ) (h : Handle)
    → i < length hs
    → get_or (set hs i h) k null_handle ≡ (if i == k then h else get_or hs k null_handle)
get_or-set_cases hs i k h b =
    ground (arith, get_or-set_self hs i h null_handle b, get_or-set_ne hs i k h null_handle)

module _ (p : Program) (c : IsCounted p) (k : ℕ) where
  paired_after :
      (op : Op)
      → Allowed op p
      → (slot (run_op op p) k).ref_count ≢ 0
      → (slot (run_op op p) k).address ≡ (slot (run_op op p) k).ref_count
  unfolding run_op
  paired_after (adopt i b) ok =
      ground
        (arith, c.paired k, get_or-set_cases p.slots i k (record { address = b; ref_count = b }))
  paired_after (copy_new i j) ok =
      ground (arith, c.paired k, c.paired j, get_or-set_cases p.slots i k (slot p j))
  paired_after (move_new i j) ok = ground (
    arith,
    c.paired k,
    c.paired j,
    get_or-set_cases p.slots j k null_handle,
    get_or-set_cases (set p.slots j null_handle) i k (slot p j),
    length-set p.slots j null_handle,
  )
  paired_after (assign i j) ok =
      ground (arith, c.paired k, c.paired j, get_or-set_cases p.slots i k (slot p j))
  paired_after (move_in i j) ok = ground (
    arith,
    c.paired k,
    c.paired j,
    get_or-set_cases p.slots j k null_handle,
    get_or-set_cases (set p.slots j null_handle) i k (slot p j),
    length-set p.slots j null_handle,
  )
  paired_after (reset_slot i) ok =
      ground (arith, c.paired k, get_or-set_cases p.slots i k null_handle)
  paired_after (destruct i) ok =
      ground (arith, c.paired k, get_or-set_cases p.slots i k null_handle)

length-run_op : (op : Op) (p : Program) → length (run_op op p).slots ≡ length p.slots
unfolding run_op
length-run_op (adopt i b) p =
    ground (arith, length-set p.slots i (record { address = b; ref_count = b }))
length-run_op (copy_new i j) p = ground (arith, length-set p.slots i (slot p j))
length-run_op (move_new i j) p =
    ground
      (arith, length-set p.slots j null_handle, length-set (set p.slots j null_handle) i (slot p j))
length-run_op (assign i j) p = ground (arith, length-set p.slots i (slot p j))
length-run_op (move_in i j) p =
    ground
      (arith, length-set p.slots j null_handle, length-set (set p.slots j null_handle) i (slot p j))
length-run_op (reset_slot i) p = ground (arith, length-set p.slots i null_handle)
length-run_op (destruct i) p = ground (arith, length-set p.slots i null_handle)

-- Every operation on handles keeps each counter equal to the number of handles that share its
-- coroutine, with fewer than 2^32 variables. It destroys a coroutine exactly when it takes the last
-- handle of it away, and then once.
pub run_op-IsCounted :
    (op : Op) (p : Program)
    → IsCounted p
    → Allowed op p
    → IsCounted (run_op op p)
      × ((a : ℕ)
          → a ≢ 0
          → times a (run_op op p).memory.destroyed
            ≡ times a p.memory.destroyed + (if lost a p (run_op op p) then 1 else 0))
run_op-IsCounted op p c ok = (
  record {
    few = omega (arith, c.few, length-run_op op p);
    counted = λ a ne. counted_after p c a ne op ok;
    paired = λ k. paired_after p c k op ok;
  },
  λ a ne. destroyed_after p c a ne op ok,
)
