-- ===== src/WaitCounter/Launch.antt =====
-- Every task is run exactly once, whatever the order in which its resources become free.
use rg.Prelude.{
  ℕ, zero, suc, ◌+◌, ◌<◌, ◌≡◌, refl, sym, subst, ◌∙◌, Bool, true, false, List, [], ◌∷◌, ◌++◌, arith,
}
use mathlib.Core.List.{append-nil}
use rg.WaitCounter.{
  Event, claimed, granted, notified, registered, invalid_wait_state, add32, sub32, update, launches,
  launch_count, final_count,
}

-- The updates that are still to come, for a task that waits for `k` resources: each resource is
-- granted at once or notified later, and registration ends once. Only the registering thread
-- claims and grants, so these come before its last update. At most `room` claims may come.
pub data Updates : ℕ → ℕ → Bool → List Event → Type 0 where
  over : {room : ℕ} → Updates room 0 true []
  claim :
      {room k : ℕ} {es : List Event}
      → Updates room (suc k) false es
      → Updates (suc room) k false (claimed ∷ es)
  grant :
      {room k : ℕ} {es : List Event}
      → Updates room k false es
      → Updates room (suc k) false (granted ∷ es)
  notify :
      {room k : ℕ} {r : Bool} {es : List Event}
      → Updates room k r es
      → Updates room (suc k) r (notified ∷ es)
  register :
      {room k : ℕ} {es : List Event}
      → Updates room k true es
      → Updates room k false (registered ∷ es)

-- The counter of a task that waits for `k` resources.
abbrev pub count_of : ℕ → Bool → ℕ
count_of k false = invalid_wait_state + k
count_of k true = k

-- Launches that are still to come.
abbrev left : ℕ → Bool → ℕ
left k false = 1
left zero true = 0
left (suc k) true = 1

launch_count-eq-left :
    {room k : ℕ} {r : Bool} {es : List Event}
    → Updates room k r es
    → room + k < invalid_wait_state
    → launch_count es (count_of k r) ≡ left k r
unfolding launch_count
launch_count-eq-left over h = refl
launch_count-eq-left (claim {k = k} {es = es} u) h =
    let e : add32 (invalid_wait_state + k) 1 ≡ invalid_wait_state + suc k = omega arith in
    ground (arith, e, launch_count-eq-left u (omega arith))
launch_count-eq-left (grant {k = k} u) h =
    let e : sub32 (invalid_wait_state + suc k) 1 ≡ invalid_wait_state + k = omega arith in
    ground (arith, e, launch_count-eq-left u (omega arith))
launch_count-eq-left (notify {k = k} {r = false} u) h =
    let e : sub32 (invalid_wait_state + suc k) 1 ≡ invalid_wait_state + k = omega arith in
    ground (arith, e, launch_count-eq-left u (omega arith))
launch_count-eq-left (notify {k = zero} {r = true} u) h =
    ground (arith, launch_count-eq-left u (omega arith))
launch_count-eq-left (notify {k = suc k} {r = true} u) h =
    let e : sub32 (suc (suc k)) 1 ≡ suc k = omega arith in
    ground (arith, e, launch_count-eq-left u (omega arith))
launch_count-eq-left (register {k = zero} u) h =
    ground (arith, launch_count-eq-left u (omega arith))
launch_count-eq-left (register {k = suc k} u) h =
    let e : sub32 (invalid_wait_state + suc k) invalid_wait_state ≡ suc k = omega arith in
    ground (arith, e, launch_count-eq-left u (omega arith))

-- What is left of a sequence of updates after some of them.
record Rest (c : ℕ) (es : List Event) : Type 0 where
  room : ℕ
  k : ℕ
  r : Bool
  updates : Updates room k r es
  small : room + k < invalid_wait_state
  count : c ≡ count_of k r

Rest-of :
    (pre post : List Event) {room k : ℕ} {r : Bool} (c : ℕ)
    → Updates room k r (pre ++ post)
    → room + k < invalid_wait_state
    → c ≡ count_of k r
    → Rest (final_count pre c) post
unfolding final_count
Rest-of [] post {room} {k} {r} c u h e = record {
  room = room;
  k = k;
  r = r;
  updates = u;
  small = h;
  count = e;
}
Rest-of (e ∷ pre) post c (claim u) h p = Rest-of pre post (add32 c 1) u (omega arith) (omega arith)
Rest-of (e ∷ pre) post c (grant u) h p = Rest-of pre post (sub32 c 1) u (omega arith) (omega arith)
Rest-of (e ∷ pre) post c (notify {r = false} u) h p =
    Rest-of pre post (sub32 c 1) u (omega arith) (omega arith)
Rest-of (e ∷ pre) post c (notify {r = true} u) h p =
    Rest-of pre post (sub32 c 1) u (omega arith) (omega arith)
Rest-of (e ∷ pre) post c (register u) h p =
    Rest-of pre post (sub32 c invalid_wait_state) u (omega arith) (omega arith)

launch_count-append :
    (pre post : List Event) (c : ℕ)
    → launch_count (pre ++ post) c ≡ launch_count pre c + launch_count post (final_count pre c)
unfolding launch_count final_count
launch_count-append [] post c = omega arith
launch_count-append (e ∷ pre) post c = omega (arith, launch_count-append pre post (update e c))

left_of_more :
    {room k : ℕ} {r : Bool} (e : Event) (es : List Event) → Updates room k r (e ∷ es) → left k r ≡ 1
left_of_more e es (claim u) = refl
left_of_more e es (grant u) = refl
left_of_more e es (notify {r = false} u) = refl
left_of_more e es (notify {r = true} u) = refl
left_of_more e es (register u) = refl

left_of_none : {room k : ℕ} {r : Bool} → Updates room k r [] → count_of k r ≡ 0
left_of_none over = refl

launches-of_count : (e : Event) (c : ℕ) → launch_count (e ∷ []) c ≡ 1 → launches e c ≡ true
unfolding launch_count
launches-of_count e c h = ground arith

-- A task that claims fewer than 2^31 resources is set running by exactly one thread, whatever the
-- order in which its resources are granted, become free and are registered: the update that
-- launches it is the last one, no earlier one does, and the counter ends at 0.
pub launched_once :
    (pre : List Event) (last : Event) {room k : ℕ}
    → Updates room k false (pre ++ (last ∷ []))
    → room + k < invalid_wait_state
    → let start = invalid_wait_state + k in
      (launch_count pre start ≡ 0)
      × (launches last (final_count pre start) ≡ true)
      × (final_count (pre ++ (last ∷ [])) start ≡ 0)
launched_once pre last {room} {k} u h =
    let start = invalid_wait_state + k in
    let all = launch_count-eq-left u h in
    let rest = Rest-of pre (last ∷ []) start u h refl in
    let one = launch_count-eq-left rest.updates rest.small in
    let one' = left_of_more last [] rest.updates in
    let sum = launch_count-append pre (last ∷ []) start in
    let end =
      Rest-of (pre ++ (last ∷ [])) [] start
        (subst (Updates room k false) (sym (append-nil (pre ++ (last ∷ [])))) u) h refl in
    let last_one : launch_count (last ∷ []) (final_count pre start) ≡ 1 =
      rw rest.count (one ∙ one') in
    (
      omega (arith, all, sum, last_one),
      launches-of_count last (final_count pre start) last_one,
      end.count ∙ left_of_none end.updates,
    )
