-- ===== src/Schedule/Waited.antt =====
-- include/barrier.hpp: barriers on resources, and the tasks before them.
use mathlib.Core.List.Memᴰ.{Memᴰ, head, tail}
use rg.Prelude.{
  ℕ, ◌==◌, List, [], ◌∷◌, ◌++◌, ◌≡◌, refl, ap, sym, subst, arith, Bool-cases, inl, inr, true, false,
}
use rg.Access.{AccessMode, read, write, aadd, amul, is_serial_access}
use rg.Node.{World}
use rg.Dispatch.{Store, access}
use rg.Awaiter.{Resources}
use rg.Awaiter.Enqueue.{nodes_of, writes}
use rg.Deregister.Leaves.{among}
use rg.Schedule.{Live, Steps, start}
use rg.Schedule.Dispatched.{system}
use rg.Schedule.Rivals.{ready-not_rival}

is_serial_access-write : (m : AccessMode) → is_serial_access m write ≡ true
unfolding is_serial_access
is_serial_access-write read = refl
is_serial_access-write write = refl
is_serial_access-write aadd = refl
is_serial_access-write amul = refl

writes-Mem :
    (node : ℕ) (nodes : List ℕ) → among node nodes ≡ true → Memᴰ (access node write) (writes nodes)
writes-Mem node [] h = cc
writes-Mem node (k ∷ nodes) h = elim (Bool-cases (k == node)) [
  | inl e ↦ let same : node ≡ k = ground arith in head (ap (λ j. access j write) same)
  | inr e ↦ tail (writes-Mem node nodes (ground arith))
]

-- In every state that a program reaches by the steps of `Step`, under the conditions that these
-- have, let the counter of a barrier's task be 0. Then no unfinished task that was dispatched
-- before the barrier has an access, of whatever mode, to a resource that the barrier waits for.
pub barrier-behind :
    (N : ℕ) (w : World) (s : Store) (t u : Live) (rs : List Resources) (earlier later : List Live)
    (node : ℕ) (mode : AccessMode)
    → Steps N (start w) (system s (earlier ++ (u ∷ later)))
    → u.args ≡ writes (nodes_of rs)
    → s.world.counters u.co.wait_counter_p ≡ 0
    → Memᴰ t earlier
    → Memᴰ (access node mode) t.args
    → among node (nodes_of rs) ≡ false
barrier-behind N w s t u rs earlier later node mode r claims zero older uses =
    elim (Bool-cases (among node (nodes_of rs))) [
      | inl e ↦
          let mine =
            subst (Memᴰ (access node write)) (sym claims) (writes-Mem node (nodes_of rs) e) in
          let never =
            ready-not_rival N w s t u earlier later node mode write r zero older uses mine in
          let always = is_serial_access-write mode in cc
      | inr e ↦ e
    ]
