-- ===== src/Alloc/Segregate.antt =====
-- include/alloc/Segregator.hpp: a block goes back to where it came from.
use rg.Prelude.{ℕ, ◌<◌, ◌≤◌, ◌≡◌, ◌⊎◌, inl, inr, leb, Bool-cases, refl, arith}
use rg.Alloc.{Allocator, segregator}

-- A request of `n` bytes, and the free of the pointer that it returned under the size `n`, as
-- `operator delete` of a promise does it, are served by the same one of the two allocators, the
-- small one up to the threshold; the other one's state stays as it was.
pub segregator-deallocate-allocate :
    {S T : Type 0} (threshold : ℕ) (small : Allocator S) (large : Allocator T) (n : ℕ) (s : S)
    (t : T)
    → let both = segregator threshold small large in
      let (st, b) = both.allocate n (s, t) in
      let st' = both.deallocate (record { ptr = b.ptr; n = n }) st in
      ((n ≤ threshold)
        × (b ≡ (small.allocate n s).1)
        × (st' ≡ (small.deallocate (record { ptr = b.ptr; n = n }) (small.allocate n s).0, t)))
      ⊎ ((threshold < n)
          × (b ≡ (large.allocate n t).1)
          × (st' ≡ (s, large.deallocate (record { ptr = b.ptr; n = n }) (large.allocate n t).0)))
unfolding segregator
segregator-deallocate-allocate threshold small large n s t = elim (Bool-cases (leb n threshold)) [
  | inl e ↦ inl (ground arith, rw e refl, rw e refl)
  | inr e ↦ inr (ground arith, rw e refl, rw e refl)
]
