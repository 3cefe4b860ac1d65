-- ===== src/Life/Steps.antt =====
-- include/Task.hpp: every step of a task keeps its counter the number of those that own it.
use rg.Prelude.{
  ℕ, zero, suc, ◌+◌, ◌^◌, ◌≤◌, ltb, if◌then◌else◌, Bool, true, false, Bool-cases, inl, inr, length,
  replicate, some, arith, ◌≡◌, ◌≢◌, refl, ap, ◌∙◌,
}
use rg.Handle.{
  null_handle, Memory, set_count, copy_construct, copy_assign, decrement_ref, increment_ref, reset,
  move_construct,
}
use rg.Life.{
  Operand, named, temporary, Returns, Life, new_life, move_task, clear_outside, keeps_parent,
  await_transform, Step, moved, dispatched, child_destroyed, get_called, get_resumed,
  object_destroyed, handle_destroyed, finished, life_step, Lives, born, lives_on,
}
use rg.Life.Owners.{
  own, Place, object_set, awaiter_set, object_clear, awaiter_clear, nowhere, held, shape, Counted,
  decrement-count, reset-count, assign-count, decrement-null, assign-own, one_more, then_Counted,
  none-Counted, alive-le, held-le, zero-test,
}

module _ (a : ℕ) (ne : a ≢ 0) where
  dispatched-Counted :
      (operand : Operand) (kind : Returns) (s f : Bool) (m : Memory) (place : Place) (n : ℕ)
      {y : Life}
      → m.counts a ≡ 1 + held place + n
      → n + 3 ≤ 2 ^ 32
      → held place ≤ 1
      → life_step (dispatched operand kind s f) (shape a m true place n) ≡ some y
      → Counted a y
  unfolding life_step await_transform
  dispatched-Counted temporary kind s f m place n count few one e =
      elim (Bool-cases (ltb (length (replicate n (own a)) + 3) (2 ^ 32))) [
        | inr full ↦ none-Counted a (rw (zero-test a ne, full) at e)
        | inl room ↦ then_Counted a (rw (zero-test a ne, room) at e) (record {
          memory = m;
          alive = true;
          place = place;
          n = n;
          same = refl;
          count = count;
          few = few;
        })
      ]
  dispatched-Counted named kind s f m place n count few one e =
      elim (Bool-cases (ltb (length (replicate n (own a)) + 3) (2 ^ 32))) [
        | inr full ↦ none-Counted a (rw (zero-test a ne, full) at e)
        | inl room ↦ elim (Bool-cases (keeps_parent kind s f)) [
          | inl keeps ↦
              let more = one_more n (own a) room in
              then_Counted a (rw (zero-test a ne, room, keeps, assign-own a m) at e) (record {
                memory = (copy_assign null_handle (own a) m).1;
                alive = true;
                place = place;
                n = suc n;
                same = refl;
                count = omega (arith, assign-count a (1 + held place + n) m ne count (omega arith));
                few = more;
              })
          | inr drops ↦ then_Counted a (rw (zero-test a ne, room, drops) at e) (record {
            memory = m;
            alive = true;
            place = place;
            n = n;
            same = refl;
            count = count;
            few = few;
          })
        ]
      ]

  finished-Counted :
      (m : Memory) (alive : Bool) (place : Place) (n : ℕ) {y : Life}
      → m.counts a ≡ (if alive then 1 else 0) + held place + n
      → n + 3 ≤ 2 ^ 32
      → held place ≤ 1
      → life_step finished (shape a m alive place n) ≡ some y
      → Counted a y
  unfolding life_step
  finished-Counted m false place n count few one e = cc
  finished-Counted m true place n count few one e =
      let (null, less) = reset-count a (held place + n) m ne (omega arith) (omega arith) in
      then_Counted a (rw (zero-test a ne, null) at e) (record {
        memory = (reset (own a) m).1;
        alive = false;
        place = place;
        n = n;
        same = refl;
        count = omega arith;
        few = few;
      })

  child-Counted :
      (m : Memory) (alive : Bool) (place : Place) (n : ℕ) {y : Life}
      → m.counts a ≡ (if alive then 1 else 0) + held place + n
      → n + 3 ≤ 2 ^ 32
      → held place ≤ 1
      → life_step child_destroyed (shape a m alive place n) ≡ some y
      → Counted a y
  unfolding life_step
  child-Counted m alive place zero count few one e = cc
  child-Counted m alive place (suc n) count few one e =
      let k = (if alive then 1 else 0) + held place + n in
      then_Counted a e (record {
        memory = (decrement_ref (own a) m).1;
        alive = alive;
        place = place;
        n = n;
        same = refl;
        count = decrement-count a k m ne (omega arith) (omega (arith, alive-le alive));
        few = omega arith;
      })

  life_step-Counted :
      (s : Step) (m : Memory) (alive : Bool) (place : Place) (n : ℕ) {y : Life}
      → m.counts a ≡ (if alive then 1 else 0) + held place + n
      → n + 3 ≤ 2 ^ 32
      → life_step s (shape a m alive place n) ≡ some y
      → Counted a y
  unfolding life_step move_task clear_outside move_construct
  life_step-Counted moved m alive object_set n count few e = then_Counted a e (record {
    memory = m;
    alive = alive;
    place = object_set;
    n = n;
    same = refl;
    count = count;
    few = few;
  })
  life_step-Counted get_called m alive object_set n count few e = then_Counted a e (record {
    memory = m;
    alive = alive;
    place = awaiter_set;
    n = n;
    same = refl;
    count = count;
    few = few;
  })
  life_step-Counted get_resumed m alive awaiter_set n count few e = then_Counted a e (record {
    memory = m;
    alive = alive;
    place = awaiter_clear;
    n = n;
    same = refl;
    count = count;
    few = few;
  })
  life_step-Counted object_destroyed m alive object_set n count few e =
      then_Counted a (rw (zero-test a ne) at e) (record {
        memory = m;
        alive = alive;
        place = object_clear;
        n = n;
        same = refl;
        count = count;
        few = few;
      })
  life_step-Counted handle_destroyed m alive object_clear n count few e =
      let k = (if alive then 1 else 0) + n in
      then_Counted a e (record {
        memory = (decrement_ref null_handle (decrement_ref (own a) m).1).1;
        alive = alive;
        place = nowhere;
        n = n;
        same = refl;
        count =
            ap (λ w. w.counts a) (decrement-null (decrement_ref (own a) m).1)
            ∙ decrement-count a k m ne (omega arith) (omega (arith, alive-le alive))
            ∙ omega arith;
        few = few;
      })
  life_step-Counted handle_destroyed m alive awaiter_clear n count few e =
      let k = (if alive then 1 else 0) + n in
      let same = decrement-null m in
      then_Counted a e (record {
        memory = (decrement_ref (own a) (decrement_ref null_handle m).1).1;
        alive = alive;
        place = nowhere;
        n = n;
        same = refl;
        count =
            ap (λ w. (decrement_ref (own a) w).1.counts a) same
            ∙ decrement-count a k m ne (omega arith) (omega (arith, alive-le alive))
            ∙ omega arith;
        few = few;
      })
  life_step-Counted (dispatched o kind s f) m true place n count few e =
      dispatched-Counted o kind s f m place n count few (held-le place) e
  life_step-Counted finished m alive place n count few e =
      finished-Counted m alive place n count few (held-le place) e
  life_step-Counted child_destroyed m alive place n count few e =
      child-Counted m alive place n count few (held-le place) e
  life_step-Counted _ m alive place n count few e = none-Counted a e

  construct-count : (m : Memory) → (copy_construct (own a) (set_count m a 1)).1.counts a ≡ 2
  unfolding copy_construct increment_ref
  construct-count m = ground arith

  new_life-Counted : (m : Memory) → Counted a (new_life a m)
  unfolding new_life copy_construct
  new_life-Counted m = record {
    memory = (copy_construct (own a) (set_count m a 1)).1;
    alive = true;
    place = object_set;
    n = 0;
    same = refl;
    count = construct-count m ∙ omega arith;
    few = omega arith;
  }

  pub Lives-Counted : {life : Life} → Lives a life → Counted a life
  Lives-Counted (born m) = new_life-Counted m
  Lives-Counted (lives_on s {x} {y} before e) =
      let c = Lives-Counted before in
      life_step-Counted s c.memory c.alive c.place c.n c.count c.few (ap (life_step s) c.same ∙ e)
