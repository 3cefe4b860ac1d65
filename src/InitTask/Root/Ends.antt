-- ===== src/InitTask/Root/Ends.antt =====
-- include/initTask.hpp: the destructor of `InitTask` waits for the task and its children, and no more.
use rg.Prelude.{
  ℕ, ◌<◌, ◌≡◌, ◌≢◌, ◌∙◌, ◌↔◌, true, false, List, [], ◌∷◌, ◌++◌, length, length-replicate, refl, ap,
  arith,
}
use rg.Handle.{Memory, move_construct}
use rg.Life.Owners.{own}
use rg.InitTask.Root.{
  detach, Stage, in_pool, running, ended, Main, using, waiting, cleared, left, Root, final_suspend,
  Step, detaches, resumes, dispatches, child_ends, finishes, lets_go, is_destroyed, yields, passes,
  resets, Lives, born, lives_on,
}
use rg.InitTask.Root.Owners.{
  in_self, in_final, owners, Counted, new_root-Counted, dispatch-Counted, child-Counted,
  lets_go-Counted, resets-Counted,
}

module _ (a : ℕ) (m : Memory) (ne : a ≢ 0) where
  -- The task goes on and keeps its `self`.
  goes_on :
      {r : Root} (added : List ℕ) (next : Stage)
      → in_self r.stage ≡ true
      → in_final r.stage ≡ false
      → in_self next ≡ true
      → in_final next ≡ false
      → Counted a m r
      → Counted a m (record r { added = added; stage = next })
  goes_on added next e f e' f' c = record {
    self_at = c.self_at ∙ ground arith;
    final_at = c.final_at ∙ ground arith;
    coro_at = c.coro_at;
    n = c.n;
    parents_at = c.parents_at;
    count = c.count ∙ ground arith;
    few = c.few;
    outside_at = c.outside_at;
    passed = λ h. ground (arith, c.passed h);
    log = c.log;
  }

  Step-Counted : {r r' : Root} → Step a r r' → Counted a m r → Counted a m r'
  unfolding detach final_suspend move_construct
  Step-Counted {r} (detaches e) c =
      goes_on (r.added ++ (a ∷ [])) in_pool (ground arith) (ground arith) refl refl c
  Step-Counted {r} (resumes e) c = goes_on r.added running (ground arith) (ground arith) refl refl c
  Step-Counted (dispatches o f e room) c = dispatch-Counted a m ne o f e room c
  Step-Counted (child_ends e) c = child-Counted a m ne e c
  Step-Counted {r} (finishes e) c = record {
    self_at = refl;
    final_at = c.self_at ∙ ground arith;
    coro_at = c.coro_at;
    n = c.n;
    parents_at = c.parents_at;
    count = c.count ∙ ground arith;
    few = c.few;
    outside_at = c.outside_at;
    passed = λ h. ground (arith, c.passed h);
    log = c.log;
  }
  Step-Counted (lets_go e) c = lets_go-Counted a m ne e c
  Step-Counted {r} (is_destroyed e s d) c = record {
    self_at = c.self_at;
    final_at = c.final_at;
    coro_at = c.coro_at ∙ ground arith;
    n = c.n;
    parents_at = c.parents_at;
    count = c.count ∙ ground arith;
    few = c.few;
    outside_at = c.outside_at ∙ ground arith;
    passed = λ h. absurd (ground arith);
    log = c.log ∙ ground arith;
  }
  Step-Counted (yields e h) c = c
  Step-Counted {r} (passes e h) c =
      let coro : r.coro ≡ own a = c.coro_at ∙ ground arith in
      let count : r.memory.counts r.coro.ref_count ≡ owners r.stage r.main c.n =
        ap (λ x. r.memory.counts x.ref_count) coro ∙ c.count in
      record {
        self_at = c.self_at;
        final_at = c.final_at;
        coro_at = c.coro_at ∙ ground arith;
        n = c.n;
        parents_at = c.parents_at;
        count = c.count ∙ ground arith;
        few = c.few;
        outside_at = refl;
        passed = λ p. ground arith;
        log = c.log ∙ ground arith;
      }
  Step-Counted (resets e) c = resets-Counted a m ne e c

  Lives-Counted : {r : Root} → Lives a m r → Counted a m r
  Lives-Counted born = new_root-Counted a m ne
  Lives-Counted (lives_on l s) = Step-Counted s (Lives-Counted l)

  -- What holds of the destructor, by how far the main thread is.
  abbrev pub AtEnd : Root → Main → Type 0
  AtEnd r using = r.memory.destroyed ≡ m.destroyed
  AtEnd r waiting =
      (r.memory.destroyed ≡ m.destroyed)
      × ((r.memory.counts r.coro.ref_count < 2) ↔ ((r.stage ≡ ended) × (length r.parents ≡ 0)))
  AtEnd r cleared = (r.memory.destroyed ≡ m.destroyed) × (r.stage ≡ ended) × (length r.parents ≡ 0)
  AtEnd r left =
      (r.memory.destroyed ≡ m.destroyed ++ (a ∷ [])) × (r.stage ≡ ended) × (length r.parents ≡ 0)

  children : {r : Root} (c : Counted a m r) → length r.parents ≡ c.n
  children c = ap length c.parents_at ∙ length-replicate c.n (own a)

  Counted-AtEnd : {r : Root} (d : Main) → r.main ≡ d → Counted a m r → AtEnd r d
  Counted-AtEnd using e c = ground (arith, c.log)
  Counted-AtEnd {r} waiting e c =
      let coro : r.coro ≡ own a = c.coro_at ∙ ground arith in
      let count : r.memory.counts r.coro.ref_count ≡ owners r.stage r.main c.n =
        ap (λ x. r.memory.counts x.ref_count) coro ∙ c.count in
      (ground (arith, c.log), ground (arith, children c))
  Counted-AtEnd {r} cleared e c =
      let (over, none_left) = c.passed (ground arith) in
      (ground (arith, c.log), over, children c ∙ none_left)
  Counted-AtEnd {r} left e c =
      let (over, none_left) = c.passed (ground arith) in
      (ground (arith, c.log), over, children c ∙ none_left)

  -- In whatever order the main thread, the task and its children take their steps: until the
  -- destructor of `InitTask` resets its handle, the coroutine is not destroyed; in its loop the
  -- destructor finds that it may go on exactly when the task has let go of itself after its end and
  -- no child that keeps it as its parent is alive; that is still so afterwards, and the reset
  -- destroys the coroutine, once.
  pub destructor_waits : {r : Root} → Lives a m r → AtEnd r r.main
  destructor_waits {r} lives = Counted-AtEnd r.main refl (Lives-Counted lives)
