-- ===== src/Resource/Ids.antt =====
-- include/resources.hpp: the identifiers of resources.
use rg.Prelude.{
  ℕ, zero, suc, ◌+◌, ◌%◌, ◌^◌, ◌<◌, ◌≤◌, ◌==◌, Bool-cases, false, inl, inr, ◌≡◌, ◌≢◌, sym, ap, ◌∙◌,
  arith, ==_iff,
}
use rg.Node.{init}
use rg.Resource.{Storage, ResourceAccess, Heap, create, created, get_id}

module _ {ℓ} {T : Type ℓ} (addresses : ℕ → ℕ) (storages : ℕ → Storage T) (h : Heap)
    (small : h.id_counter < 2 ^ 32) where
  counter_after :
      (k : ℕ) → (created addresses storages k h).id_counter ≡ (h.id_counter + k) % 2 ^ 32
  unfolding created create
  counter_after zero = omega arith
  counter_after (suc k) = omega (arith, counter_after k)

  -- A node keeps the number that the counter had when it was made.
  uid_after :
      (k i : ℕ)
      → ((p q : ℕ) → p < q → q < k → addresses p ≢ addresses q)
      → i < k
      → ((created addresses storages k h).nodes (addresses i)).resource_uid
        ≡ (h.id_counter + i) % 2 ^ 32
  unfolding created create init
  uid_after zero i apart lt = absurd (omega arith)
  uid_after (suc k) i apart lt = elim (Bool-cases (i == k)) [
    | inl e ↦
        let p : i ≡ k = (==_iff i k).0 e in
        let found = (==_iff (addresses k) (addresses i)).1 (ap addresses (sym p)) in
        rw found (counter_after k ∙ ap (λ z. (h.id_counter + z) % 2 ^ 32) (sym p))
    | inr e ↦
        let below : i < k = ground arith in
        let ne = apart i k below (omega arith) in
        let other : (addresses k == addresses i) ≡ false = ground arith in
        rw other (uid_after k i (λ p q pq qk. apart p q pq (omega arith)) below)
  ]

-- Of at most 2^32 resources whose nodes are at different addresses, no two have the same
-- identifier, whichever way they are accessed.
pub get_id-distinct {ℓ} :
    {T : Type ℓ} (addresses : ℕ → ℕ) (storages : ℕ → Storage T) (h : Heap) (k i j : ℕ)
    (a b : ResourceAccess T)
    → h.id_counter < 2 ^ 32
    → ((p q : ℕ) → p < q → q < k → addresses p ≢ addresses q)
    → i < j
    → j < k
    → k ≤ 2 ^ 32
    → a.resource.user_queue ≡ addresses i
    → b.resource.user_queue ≡ addresses j
    → get_id (created addresses storages k h) a ≢ get_id (created addresses storages k h) b
unfolding get_id
get_id-distinct addresses storages h k i j a b small apart ij jk few at_i at_j e =
    let final = created addresses storages k h in
    let one =
      ap (λ q. (final.nodes q).resource_uid) at_i
      ∙ uid_after addresses storages h small k i apart (omega arith) in
    let two =
      ap (λ q. (final.nodes q).resource_uid) at_j
      ∙ uid_after addresses storages h small k j apart jk in
    omega arith
