-- ===== src/FreeList/Local.antt =====
-- include/alloc/FreeList.hpp: a list of free blocks of one size that only its own thread uses.
use rg.Prelude.{
  ℕ, zero, suc, List, [], ◌∷◌, length, none, some, Option-cases, inl, inr, ◌≡◌, refl, ap, ◌∙◌,
  if◌then◌else◌, true,
}
use rg.Prelude.Exec.{Exec, ret, no_fuel}
use rg.Alloc.{MemBlk, Allocator}
use rg.FreeList.{Stack, free_all}

-- `root_` of a thread, and the state of the base.
pub record LocalList (S K : Type 0) : Type 0 where
  pub root : K
  pub blocks : S

module _ {S K : Type 0} (stack : Stack K) (base : Allocator S) (size : ℕ) where
  -- The requested size is not read.
  unfoldable pub allocate_local : ℕ → LocalList S K → LocalList S K × MemBlk
  allocate_local n s =
      let (k, free_block) = stack.pop s.root in
      let (blocks, blk) = base.allocate size s.blocks in
      elim free_block [
        | some ptr ↦ (record s { root = k }, record { ptr = ptr; n = size })
        | none ↦ (record { root = k; blocks = blocks }, blk)
      ]

  unfoldable pub deallocate_local : MemBlk → LocalList S K → LocalList S K
  deallocate_local b s =
      let (k, pushed) = stack.push b.ptr s.root in
      if pushed
      then record s { root = k }
      else record { root = k; blocks = base.deallocate b s.blocks }

  -- The loop of the destructor.
  unfoldable pub destroy_local : ℕ → LocalList S K → Exec (LocalList S K)
  destroy_local zero s = no_fuel
  destroy_local (suc fuel) s =
      let (k, cur_block) = stack.pop s.root in
      elim cur_block [
        | none ↦ ret (record s { root = k })
        | some ptr ↦ destroy_local fuel (record {
          root = k;
          blocks = base.deallocate (record { ptr = ptr; n = size }) s.blocks;
        })
      ]

  destroy_local-some :
      (fuel ptr : ℕ) (s : LocalList S K)
      → (stack.pop s.root).1 ≡ some ptr
      → destroy_local (suc fuel) s
        ≡ destroy_local fuel (record {
          root = (stack.pop s.root).0;
          blocks = base.deallocate (record { ptr = ptr; n = size }) s.blocks;
        })
  unfolding destroy_local
  destroy_local-some fuel ptr s q = rw (destroy_local, q) refl

  -- The destructor ends: it gives each block of the list back once, under the size of the list, the last
  -- one first, and leaves the list empty.
  destroy_local_lem :
      (ptrs : List ℕ) (s : LocalList S K)
      → stack.content s.root ≡ ptrs
      → (k : K) × (destroy_local (suc (length ptrs)) s
          ≡ ret (record { root = k; blocks = free_all stack base size ptrs s.blocks }))
        × (stack.content k ≡ [])
  unfolding destroy_local free_all
  destroy_local_lem [] s e = elim (Option-cases (stack.pop s.root).1) [
    | inl q ↦ ((stack.pop s.root).0, rw (destroy_local, q) refl, (stack.pop_none s.root q).1)
    | inr (x, q) ↦ absurd (let top = stack.pop_some s.root x q in cc)
  ]
  destroy_local_lem (ptr ∷ ptrs) s e = elim (Option-cases (stack.pop s.root).1) [
    | inl q ↦ absurd (let (empty, _) = stack.pop_none s.root q in cc)
    | inr (x, q) ↦
        let top = stack.pop_some s.root x q in
        let same : x ≡ ptr = cc in
        let below : stack.content (stack.pop s.root).0 ≡ ptrs = cc in
        let s' : LocalList S K = record {
          root = (stack.pop s.root).0;
          blocks = base.deallocate (record { ptr = ptr; n = size }) s.blocks;
        } in
        let (k, run, empty) = destroy_local_lem ptrs s' below in
        (k, destroy_local-some (suc (length ptrs)) ptr s (q ∙ ap some same) ∙ run, empty)
  ]

  -- A block that the list took is the next one that it gives out, under the size of the list, and the
  -- base is not asked.
  allocate-deallocate_local :
      (b : MemBlk) (n : ℕ) (s : LocalList S K)
      → (stack.push b.ptr s.root).1 ≡ true
      → ((allocate_local n (deallocate_local b s)).1 ≡ record { ptr = b.ptr; n = size })
        × ((allocate_local n (deallocate_local b s)).0.blocks ≡ s.blocks)
  unfolding allocate_local deallocate_local
  allocate-deallocate_local b n s taken =
      let k = (stack.push b.ptr s.root).0 in
      let held = stack.push_true b.ptr s.root taken in
      elim (Option-cases (stack.pop k).1) [
        | inl q ↦ absurd (let (empty, _) = stack.pop_none k q in cc)
        | inr (x, q) ↦
            let top = stack.pop_some k x q in
            let same : x ≡ b.ptr = cc in
            rw (deallocate_local, taken) (rw (allocate_local, q, same) (refl, refl))
      ]
