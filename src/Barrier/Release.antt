-- ===== src/Barrier/Release.antt =====
-- include/BarrierQueue.hpp: `process_and_extract` looks at every entry once, in order.
use rg.Prelude.{
  ℕ, zero, suc, ◌+◌, ◌<◌, if◌then◌else◌, Bool-cases, inl, inr, List, [], ◌∷◌, ◌++◌, length,
  length-append, get_elem?, arith, ◌≡◌, refl, ap,
}
use rg.Prelude.Exec.{ret}
use rg.Barrier.{Entry, Seen, is_ready, erase, extract_loop, process_and_extract}

-- What is to stay, and the handles of what is to go: the entry at index `i` is judged by check `i`.
unfoldable pub waiting : (ℕ → Seen) → ℕ → List Entry → List Entry
waiting seen k [] = []
waiting seen k (e ∷ queue) =
    let rest = waiting seen (k + 1) queue in if is_ready (seen k) e then rest else e ∷ rest

unfoldable pub released : (ℕ → Seen) → ℕ → List Entry → List ℕ
released seen k [] = []
released seen k (e ∷ queue) =
    let rest = released seen (k + 1) queue in if is_ready (seen k) e then e.handle ∷ rest else rest

get-past : (kept queue : List Entry) → get_elem? (kept ++ queue) (length kept) ≡ get_elem? queue 0
get-past [] queue = refl
get-past (e ∷ kept) queue = get-past kept queue

erase-past :
    (kept queue : List Entry) (e : Entry) → erase (kept ++ e ∷ queue) (length kept) ≡ kept ++ queue
unfolding erase
erase-past [] queue e = refl
erase-past (x ∷ kept) queue e = ap (λ q. x ∷ q) (erase-past kept queue e)

append-one : (kept queue : List Entry) (e : Entry) → (kept ++ (e ∷ [])) ++ queue ≡ kept ++ e ∷ queue
append-one [] queue e = refl
append-one (x ∷ kept) queue e = ap (λ q. x ∷ q) (append-one kept queue e)

length-one : (kept : List Entry) (e : Entry) → length kept + 1 ≡ length (kept ++ (e ∷ []))
length-one kept e = omega (arith, length-append kept (e ∷ []))

-- The loop with `kept` behind it and `queue` in front of it.
loop_lem :
    (n : ℕ) (seen : ℕ → Seen) (k : ℕ) (kept queue : List Entry)
    → length queue < n
    → extract_loop n seen k (kept ++ queue) (length kept)
      ≡ ret (kept ++ waiting seen k queue, released seen k queue)
unfolding extract_loop waiting released
loop_lem zero seen k kept queue h = absurd (omega arith)
loop_lem (suc n) seen k kept [] h = rw (extract_loop, get-past kept []) refl
loop_lem (suc n) seen k kept (e ∷ queue) h = elim (Bool-cases (is_ready (seen k) e)) [
  | inl ready ↦
      let ih = loop_lem n seen (k + 1) kept queue (omega arith) in
      rw (extract_loop, get-past kept (e ∷ queue), ready, erase-past kept queue e, ih) refl
  | inr busy ↦
      let ih = loop_lem n seen (k + 1) (kept ++ (e ∷ [])) queue (omega arith) in
      let ih' =
        rw (append-one kept queue e, append-one kept (waiting seen (k + 1) queue) e) at ih in
      rw (extract_loop, get-past kept (e ∷ queue), busy, length-one kept e, ih') refl
]

-- Whatever other threads write meanwhile, `process_and_extract` ends. It checks the entry at every
-- index once, in order, gives the handles of the entries that it saw ready to `addTask`, in order,
-- and leaves the others in the queue, in order.
pub process_and_extract_lem :
    (seen : ℕ → Seen) (queue : List Entry)
    → process_and_extract seen queue ≡ ret (waiting seen 0 queue, released seen 0 queue)
unfolding process_and_extract
process_and_extract_lem seen queue = loop_lem (length queue + 1) seen 0 [] queue (omega arith)
