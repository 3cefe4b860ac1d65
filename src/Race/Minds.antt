-- ===== src/Race/Minds.antt =====
-- include/ResourceNode.hpp: which thread still has to look whether an entry can be made ready.
use native.Mathlib.Decide.{ℕ_discrete}
use rg.Prelude.{
  ℕ, zero, suc, ◌<◌, true, false, ◌≡◌, ◌≢◌, ◌⊎◌, inl, inr, Option, none, some, arith, Bool-cases,
}
use rg.Race.{
  Mem, Adder, published, comparing, granting, Remover, skipping, waking, looking, claiming, AddMove,
  store_task, publish, others_wait, none_waits, none_runs, runs_beside, has_to_wait, grant,
  grant_lost, RemoveMove, advance_head, mark, is_removed, none_run, some_run, none_wait, some_wait,
  claim, claim_lost, head_exit, behind_exit, skip_win, pass_win, claim_next,
}
use rg.Race.System.{System}
use rg.Race.Invariant.{MemInv, AdderFits, RemoverFits}

-- The entry at which the thread still has to look whether it can be made ready.
abbrev pub adder_minds : Adder → Option ℕ
adder_minds (published l) = some l
adder_minds (comparing l) = some l
adder_minds (granting l) = some l
adder_minds _ = none

abbrev pub minds : Remover → Option ℕ
minds (skipping false c) = some c
minds (waking c) = some c
minds (looking c) = some c
minds (claiming f) = some f
minds _ = none

-- The adding thread first, then the removing ones.
abbrev pub minds_at : System → ℕ → Option ℕ
minds_at s zero = adder_minds s.adder
minds_at s (suc k) = minds (s.removers k)

-- Nothing runs and an entry waits.
abbrev pub IsIdle : Mem → Type 0
IsIdle m = (m.first ≡ m.first_not_ready) × (m.first_not_ready < m.last)

pub AddMove-minds :
    {m m' : Mem} {a a' : Adder}
    → AddMove m a m' a'
    → MemInv m
    → AdderFits m a
    → IsIdle m'
    → (adder_minds a' ≡ some m'.first_not_ready)
      ⊎ (IsIdle m
          × (m'.first_not_ready ≡ m.first_not_ready)
          × (adder_minds a ≢ some m.first_not_ready))
AddMove-minds (store_task handle mode g h) inv f idle = ground arith
AddMove-minds {m} (publish {l}) inv f idle = elim (ℕ_discrete m.first_not_ready l) [
  | yes e ↦ inl (ground arith)
  | no n ↦ inr (ground (arith, inv.waiting))
]
AddMove-minds (others_wait g) inv f idle = ground arith
AddMove-minds (none_waits g) inv f idle = ground arith
AddMove-minds (none_runs g) inv f idle = ground arith
AddMove-minds (runs_beside g h) inv f idle = ground arith
AddMove-minds (has_to_wait g h) inv f idle = ground arith
AddMove-minds (grant g) inv f idle = ground (arith, inv.running)
AddMove-minds (grant_lost g) inv f idle = ground arith
AddMove-minds mv inv f idle = ground arith

pub RemoveMove-minds :
    {m m' : Mem} {r r' : Remover}
    → RemoveMove m r m' r'
    → MemInv m
    → RemoverFits m r
    → ((i : ℕ) → m'.removed i ≡ false)
    → IsIdle m'
    → (minds r' ≡ some m'.first_not_ready)
      ⊎ (IsIdle m × (m'.first_not_ready ≡ m.first_not_ready) × (minds r ≢ some m.first_not_ready))
RemoveMove-minds (advance_head) inv f un idle = inl (ground arith)
RemoveMove-minds (head_exit {c} e) inv f un idle = ground (arith, ℕ_discrete c)
RemoveMove-minds (behind_exit {c} e) inv f un idle = ground arith
RemoveMove-minds (is_removed {b} {c} e) inv f un idle = ground (arith, un c)
RemoveMove-minds (some_run e) inv f un idle = ground arith
RemoveMove-minds (none_run e) inv f un idle = ground arith
RemoveMove-minds (none_wait e) inv f un idle = ground arith
RemoveMove-minds (some_wait {c} e) inv f un idle = ground arith
RemoveMove-minds (claim e) inv f un idle = ground (arith, inv.running)
RemoveMove-minds (claim_lost e) inv f un idle = ground arith
RemoveMove-minds (claim_next e) inv f un idle = ground (arith, inv.running)
RemoveMove-minds (skip_win g) inv f un idle = inr (ground arith)
RemoveMove-minds (pass_win g) inv f un idle = inr (ground arith)
RemoveMove-minds mv inv f un idle = ground arith

-- No entry was removed while an earlier one stayed.
abbrev pub IsUnmarked : Mem → Type 0
IsUnmarked m = (i : ℕ) → m.removed i ≡ false

pub AddMove-marked :
    {m m' : Mem} {a a' : Adder}
    → AddMove m a m' a'
    → ((i : ℕ) → m.removed i ≡ true → i < m.last)
    → (i : ℕ) → (m'.removed i ≡ true → i < m'.last) × (m'.removed i ≡ false → m.removed i ≡ false)
AddMove-marked {m} (store_task handle mode g h) b i =
    (λ e. ground (arith, b i), λ e. ground (arith, b i, Bool-cases (m.removed i)))
AddMove-marked mv b i = (λ e. ground (arith, b i), λ e. ground (arith, b i))

pub RemoveMove-marked :
    {m m' : Mem} {r r' : Remover}
    → RemoveMove m r m' r'
    → MemInv m
    → RemoverFits m r
    → ((i : ℕ) → m.removed i ≡ true → i < m.last)
    → (i : ℕ) → (m'.removed i ≡ true → i < m'.last) × (m'.removed i ≡ false → m.removed i ≡ false)
RemoveMove-marked (mark {p} {c}) inv f b i =
    (λ e. ground (arith, b i, inv.waiting), λ e. ground arith)
RemoveMove-marked mv inv f b i = (λ e. ground (arith, b i), λ e. e)
