-- ===== src/Life/Owners.antt =====
-- include/Task.hpp: the counter of a task is the number of those that own it, at every step.
use rg.Prelude.{
  ℕ, suc, ◌+◌, ◌-◌, ◌^◌, ◌<◌, ◌≤◌, ◌==◌, ltb, if◌then◌else◌, Bool, true, false, length, replicate,
  length-replicate, none, some, arith, tests, ◌≡◌, ◌≢◌, refl, subst,
}
use rg.Handle.{Handle, null_handle, Memory, copy_assign, decrement_ref, increment_ref, reset}
use rg.Life.{Holder, in_object, in_awaiter, cleared, released, Life}

abbrev pub own : ℕ → Handle
own a = record { address = a; ref_count = a }

-- Where the caller's handle is, and whether `coroOutsideTask` is still set.
pub data Place : Type 0 where
  object_set awaiter_set object_clear awaiter_clear nowhere : Place

abbrev pub held : Place → ℕ
held nowhere = 0
held _ = 1

abbrev pub is_set : Place → Bool
is_set object_set = true
is_set awaiter_set = true
is_set _ = false

abbrev pub holder_at : Place → Holder
holder_at object_set = in_object
holder_at awaiter_set = in_awaiter
holder_at object_clear = cleared
holder_at awaiter_clear = cleared
holder_at nowhere = released

abbrev pub object_at : ℕ → Place → Handle
object_at a object_set = own a
object_at a object_clear = own a
object_at a _ = null_handle

abbrev pub awaiter_at : ℕ → Place → Handle
awaiter_at a awaiter_set = own a
awaiter_at a awaiter_clear = own a
awaiter_at a _ = null_handle

-- The task with a memory, a `self` that is alive or not, and `n` children.
abbrev pub shape : ℕ → Memory → Bool → Place → ℕ → Life
shape a m alive place n = record {
  memory = m;
  outside = is_set place;
  self = if alive then own a else null_handle;
  object = record { coro = object_at a place; is_moved = false };
  awaiter = awaiter_at a place;
  parents = replicate n (own a);
  holder = holder_at place;
}

pub record Counted (a : ℕ) (life : Life) : Type 0 where
  pub memory : Memory
  pub alive : Bool
  pub place : Place
  pub n : ℕ
  pub same : shape a memory alive place n ≡ life
  pub count : memory.counts a ≡ (if alive then 1 else 0) + held place + n
  pub few : n + 3 ≤ 2 ^ 32

pub decrement-count :
    (a k : ℕ) (m : Memory)
    → a ≢ 0
    → m.counts a ≡ suc k
    → k < 2 ^ 32 - 1
    → (decrement_ref (own a) m).1.counts a ≡ k
unfolding decrement_ref
decrement-count a k m ne e lt = ground arith

pub reset-count :
    (a k : ℕ) (m : Memory)
    → a ≢ 0
    → m.counts a ≡ suc k
    → k < 2 ^ 32 - 1
    → ((reset (own a) m).0 ≡ null_handle) × ((reset (own a) m).1.counts a ≡ k)
unfolding reset
reset-count a k m ne e lt = (ground arith, ground arith)

pub assign-count :
    (a k : ℕ) (m : Memory)
    → a ≢ 0
    → m.counts a ≡ k
    → k < 2 ^ 32 - 1
    → (copy_assign null_handle (own a) m).1.counts a ≡ suc k
unfolding copy_assign decrement_ref increment_ref
assign-count a k m ne e lt = ground arith

pub decrement-null : (m : Memory) → (decrement_ref null_handle m).1 ≡ m
unfolding decrement_ref
decrement-null m = refl

pub assign-own : (a : ℕ) (m : Memory) → (copy_assign null_handle (own a) m).0 ≡ own a
unfolding copy_assign
assign-own a m = refl

pub one_more :
    (n : ℕ) (h : Handle) → ltb (length (replicate n h) + 3) (2 ^ 32) ≡ true → suc n + 3 ≤ 2 ^ 32
one_more n h room = omega (tests, length-replicate n h, room)

pub some-injective : {x y : Life} → some x ≡ some y → x ≡ y
some-injective e = cc

pub then_Counted : (a : ℕ) {x y : Life} → some x ≡ some y → Counted a x → Counted a y
then_Counted a e c = subst (Counted a) (some-injective e) c

pub none-Counted : (a : ℕ) {y : Life} → none ≡ some y → Counted a y
none-Counted a e = cc

pub alive-le : (alive : Bool) → (if alive then 1 else 0) ≤ 1
alive-le true = omega arith
alive-le false = omega arith

pub held-le : (place : Place) → held place ≤ 1
held-le place = ground arith

pub zero-test : (a : ℕ) → a ≢ 0 → (a == 0) ≡ false
zero-test a ne = ground arith
