-- ===== src/FreeList/Tests.antt =====
-- include/alloc/FreeListTLS.hpp: lists as stacks of at most 16 pointers.
use rg.Prelude.{
  ℕ, ltb, if◌then◌else◌, Bool, true, false, Bool-cases, inl, inr, List, [], ◌∷◌, length, Option,
  none, some, ◌≡◌, ◌≢◌, refl,
}
use rg.Alloc.{MemBlk}
use rg.Alloc.Tests.{bump}
use rg.FreeList.{Stack, FreeLists, allocate, deallocate}
use rg.FreeList.Reuse.{allocate-deallocate}

abbrev pub list_push : ℕ → List ℕ → List ℕ × Bool
list_push x k = if ltb (length k) 16 then (x ∷ k, true) else (k, false)

abbrev pub list_pop : List ℕ → List ℕ × Option ℕ
list_pop [] = ([], none)
list_pop (x ∷ k) = (k, some x)

pub list_push-true : (x : ℕ) (k : List ℕ) → (list_push x k).1 ≡ true → (list_push x k).0 ≡ x ∷ k
list_push-true x k e = elim (Bool-cases (ltb (length k) 16)) [
  | inl q ↦ rw q refl
  | inr q ↦ let no_push : false ≡ true = rw q at e in absurd cc
]

pub list_push-false : (x : ℕ) (k : List ℕ) → (list_push x k).1 ≡ false → k ≢ []
list_push-false x [] e = cc
list_push-false x (y ∷ k) e = λ q. cc

pub list_pop-none : (k : List ℕ) → (list_pop k).1 ≡ none → (k ≡ []) × ((list_pop k).0 ≡ [])
list_pop-none [] e = (refl, refl)
list_pop-none (x ∷ k) e = cc

pub list_pop-some : (k : List ℕ) (x : ℕ) → (list_pop k).1 ≡ some x → k ≡ x ∷ (list_pop k).0
list_pop-some [] x e = cc
list_pop-some (y ∷ k) x e = cc

abbrev pub list_stack : Stack (List ℕ)
list_stack = record {
  push = list_push;
  pop = list_pop;
  content = λ k. k;
  push_true = list_push-true;
  push_false = list_push-false;
  pop_none = list_pop-none;
  pop_some = list_pop-some;
}

abbrev pub no_blocks : FreeLists (ℕ × List MemBlk) (List ℕ)
no_blocks = record { stacks = λ _. []; prefixes = λ _. 0; blocks = (4096, []) }

allocate-deallocate_example :
    let (s1, blk) = allocate list_stack bump 8192 2 7312 no_blocks in
    let s2 = deallocate list_stack bump 8192 blk s1 in
    let (s3, again) = allocate list_stack bump 8192 2 7312 s2 in
    (s2.stacks 2 ≡ blk.ptr ∷ []) × (again.ptr ≡ blk.ptr) × (s3.blocks ≡ s1.blocks)
allocate-deallocate_example = allocate-deallocate list_stack bump 8192 2 7312 7312 no_blocks refl
