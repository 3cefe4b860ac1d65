-- ===== src/FreeList/Reuse.antt =====
-- include/alloc/FreeListTLS.hpp: a block goes back to the thread that asked for it.
use rg.Prelude.{
  ℕ, ◌-◌, if◌then◌else◌, Bool-cases, ==_iff, Option-cases, inl, inr, List, [], ◌∷◌, ◌≡◌, refl, ap,
  ◌∙◌,
}
use rg.Alloc.{MemBlk, Allocator}
use rg.FreeList.{Stack, FreeLists, prefix_size, set_at, allocate, deallocate}

set_at_self {ℓ} : {A : Type ℓ} (f : ℕ → A) (i : ℕ) (v : A) → set_at f i v i ≡ v
set_at_self f i v = ap (λ b. if b then v else f i) ((==_iff i i).1 refl)

module _ {S K : Type 0} (stack : Stack K) (tagged : Allocator S) (size : ℕ) where
  -- A request on a thread that has a block on its list.
  allocate-some :
      (thread n ptr : ℕ) (ptrs : List ℕ) (s : FreeLists S K)
      → stack.content (s.stacks thread) ≡ ptr ∷ ptrs
      → ((allocate stack tagged size thread n s).1.ptr ≡ ptr)
        × ((allocate stack tagged size thread n s).0.blocks ≡ s.blocks)
  unfolding allocate
  allocate-some thread n ptr ptrs s e = elim (Option-cases (stack.pop (s.stacks thread)).1) [
    | inl q ↦ absurd (let (empty, _) = stack.pop_none (s.stacks thread) q in cc)
    | inr (x, q) ↦
        let top = stack.pop_some (s.stacks thread) x q in
        let same : x ≡ ptr = cc in rw (allocate, q) (same, refl)
  ]

  -- A request on a thread that has none.
  allocate-none :
      (thread n : ℕ) (s : FreeLists S K)
      → stack.content (s.stacks thread) ≡ []
      → ((allocate stack tagged size thread n s).0.prefixes
            ((allocate stack tagged size thread n s).1.ptr - prefix_size)
          ≡ thread)
        × (stack.content ((allocate stack tagged size thread n s).0.stacks thread) ≡ [])
  unfolding allocate
  allocate-none thread n s e = elim (Option-cases (stack.pop (s.stacks thread)).1) [
    | inl q ↦
        let (_, empty) = stack.pop_none (s.stacks thread) q in
        rw (allocate, q)
          (
            set_at_self s.prefixes ((tagged.allocate size s.blocks).1.ptr - prefix_size) thread,
            ap stack.content (set_at_self s.stacks thread (stack.pop (s.stacks thread)).0) ∙ empty,
          )
    | inr (x, q) ↦ absurd (let top = stack.pop_some (s.stacks thread) x q in cc)
  ]

  -- A free of a block whose thread has an empty list.
  deallocate-empty :
      (blk : MemBlk) (s : FreeLists S K) (owner : ℕ)
      → s.prefixes (blk.ptr - prefix_size) ≡ owner
      → stack.content (s.stacks owner) ≡ []
      → (stack.content ((deallocate stack tagged size blk s).stacks owner) ≡ blk.ptr ∷ [])
        × ((deallocate stack tagged size blk s).blocks ≡ s.blocks)
  unfolding deallocate
  deallocate-empty blk s owner o e = elim (Bool-cases (stack.push blk.ptr (s.stacks owner)).1) [
    | inr q ↦ absurd (stack.push_false blk.ptr (s.stacks owner) q e)
    | inl q ↦
        let top = stack.push_true blk.ptr (s.stacks owner) q in
        rw (deallocate, o, q)
          (
            ap stack.content (set_at_self s.stacks owner (stack.push blk.ptr (s.stacks owner)).0)
                ∙ top
                ∙ ap (λ l. blk.ptr ∷ l) e,
            refl,
          )
  ]

-- A thread whose list is empty asks for a block, and some thread frees it. The block is then on the
-- list of the thread that asked, whichever freed it, and that thread's next request gets it again
-- without asking the allocator below.
pub allocate-deallocate :
    {S K : Type 0} (stack : Stack K) (tagged : Allocator S) (size thread n m : ℕ)
    (s : FreeLists S K)
    → stack.content (s.stacks thread) ≡ []
    → let (s1, blk) = allocate stack tagged size thread n s in
      let s2 = deallocate stack tagged size blk s1 in
      let (s3, again) = allocate stack tagged size thread m s2 in
      (stack.content (s2.stacks thread) ≡ blk.ptr ∷ [])
      × (again.ptr ≡ blk.ptr)
      × (s3.blocks ≡ s1.blocks)
allocate-deallocate stack tagged size thread n m s e =
    let first = allocate stack tagged size thread n s in
    let s2 = deallocate stack tagged size first.1 first.0 in
    let (owner, empty) = allocate-none stack tagged size thread n s e in
    let (top, kept) = deallocate-empty stack tagged size first.1 first.0 thread owner empty in
    let (same, kept') = allocate-some stack tagged size thread m first.1.ptr [] s2 top in
    (top, same, kept' ∙ kept)
