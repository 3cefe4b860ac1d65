-- ===== src/Race.antt =====
-- include/ResourceNode.hpp: the calls of several threads on one node, a shared access at a time. One
-- thread at a time adds tasks, as the source asks for; any number of threads remove them.
pub mod System
pub mod Invariant
pub mod Removing
pub mod Adding
pub mod Exclusion
pub mod Wakes
pub mod Progress
pub mod Alone
pub mod Minds
pub mod Rest
mod Tests
use rg.Prelude.{ℕ, ◌+◌, ◌-◌, ◌<◌, ◌≤◌, Bool, true, false, ◌≡◌, ◌≢◌}
use mathlib.Core.Logic.{ite}
use native.Mathlib.Decide.{ℕ_discrete}
use rg.Access.{AccessMode, is_serial_access}
use rg.Node.{num_tasks}

-- The members of the node, and those of the entries by index. `lowered` counts how often the wait
-- counter of an entry was lowered. `taken` notes the entries whose removal has begun.
pub record Mem : Type 0 where
  pub first : ℕ
  pub first_not_ready : ℕ
  pub last : ℕ
  pub handles : ℕ → ℕ
  pub modes : ℕ → AccessMode
  pub removed : ℕ → Bool
  pub lowered : ℕ → ℕ
  pub taken : ℕ → Bool

abbrev pub set_at {ℓ} : {A : Type ℓ} → (ℕ → A) → ℕ → A → ℕ → A
set_at f i v j = ite (ℕ_discrete i j) v (f j)

-- Where the adding thread stands, with `old_last`.
pub data Adder : Type 0 where
  resting : Adder  -- outside `add_task`
  stored : (l : ℕ) → Adder  -- the entry is written, before `last.fetch_add`
  published : (l : ℕ) → Adder  -- before the load of `firstNotReady`
  comparing : (l : ℕ) → Adder  -- `fnr == old_last`, before the load of `first`
  granting : (l : ℕ) → Adder  -- before the compare-exchange
  lowering : (l : ℕ) → Adder  -- before `fetch_sub` on the wait counter

-- One step of the adding thread. A task is added while the array has room for one more, with a
-- handle that no entry has which `first` has not passed. Entries before `first` may have it.
pub data AddMove (m : Mem) : Adder → Mem → Adder → Type 0 where
  store_task :
      (handle : ℕ) (mode : AccessMode)
      → m.last < num_tasks - 1
      → ((i : ℕ) → m.first ≤ i → i < m.last → m.handles i ≢ handle)
      → AddMove m resting
          (record m {
            handles = set_at m.handles m.last handle;
            modes = set_at m.modes m.last mode;
            removed = set_at m.removed m.last false;
          })
          (stored m.last)
  publish : {l : ℕ} → AddMove m (stored l) (record m { last = m.last + 1 }) (published l)
  others_wait : {l : ℕ} → m.first_not_ready ≢ l → AddMove m (published l) m resting
  none_waits : {l : ℕ} → m.first_not_ready ≡ l → AddMove m (published l) m (comparing l)
  none_runs : {l : ℕ} → m.first ≡ l → AddMove m (comparing l) m (granting l)
  runs_beside :
      {l : ℕ}
      → m.first ≢ l
      → is_serial_access (m.modes l) (m.modes (l - 1)) ≡ false
      → AddMove m (comparing l) m (granting l)
  has_to_wait :
      {l : ℕ}
      → m.first ≢ l
      → is_serial_access (m.modes l) (m.modes (l - 1)) ≡ true
      → AddMove m (comparing l) m resting
  grant :
      {l : ℕ}
      → m.first_not_ready ≡ l
      → AddMove m (granting l) (record m { first_not_ready = l + 1 }) (lowering l)
  grant_lost : {l : ℕ} → m.first_not_ready ≢ l → AddMove m (granting l) m resting
  lower_own :
      {l : ℕ}
      → AddMove m (lowering l) (record m { lowered = set_at m.lowered l (m.lowered l + 1) }) resting

-- Where a removing thread stands. `p` is the entry that it is called for, `cur`, `f` for `fnr` and
-- `l` for `temp_last` are the source's variables, `c` is the entry whose mode is
-- `firstNewReadyMode`, and `behind` tells the loop behind a marked entry from the first one.
pub data Remover : Type 0 where
  outside : Remover
  entering : (p : ℕ) → Remover  -- before the load of `first`
  heading : (p : ℕ) → Remover  -- before `first.fetch_add`
  skipping : (behind : Bool) (cur : ℕ) → Remover  -- before the read of `remove_state`
  skipped : (behind : Bool) (cur : ℕ) → Remover  -- it is 1, before the load of `firstNotReady`
  advancing : (behind : Bool) (cur : ℕ) → Remover  -- before the compare-exchange on `first`
  searching : (p cur : ℕ) → Remover  -- before the load of `firstNotReady`
  scanning : (p cur f : ℕ) → Remover  -- the test of the `while`
  marking : (p cur : ℕ) → Remover  -- before `remove_state = 1`
  passing : (p cur : ℕ) → Remover  -- before the compare-exchange on `first`
  waking : (cur : ℕ) → Remover  -- before the load of `firstNotReady`
  looking : (cur : ℕ) → Remover  -- `fnr == cur`, before the load of `last`
  claiming : (f : ℕ) → Remover  -- before the compare-exchange on `firstNotReady`
  lowering_first : (f : ℕ) → Remover  -- before `fetch_sub` on the wait counter
  round : (c f : ℕ) → Remover  -- before the load of `last` in the `do`
  walking : (c f l : ℕ) (parallel_exit : Bool) → Remover  -- the test of the inner `while`
  claiming_next : (c f l : ℕ) → Remover
  lowering_next : (c f l : ℕ) → Remover
  closing : (c f l : ℕ) → Remover  -- before the load of `last` in the test of the `do`

-- One step of a removing thread. It is called for an entry that is ready and not yet removed.
pub data RemoveMove (m : Mem) : Remover → Mem → Remover → Type 0 where
  enter :
      (p : ℕ)
      → p < m.first_not_ready
      → m.taken p ≡ false
      → RemoveMove m outside (record m { taken = set_at m.taken p true }) (entering p)
  is_head : {p : ℕ} → m.handles m.first ≡ m.handles p → RemoveMove m (entering p) m (heading p)
  is_behind :
      {p : ℕ}
      → m.handles m.first ≢ m.handles p
      → RemoveMove m (entering p) m (searching p (m.first + 1))
  advance_head :
      {p : ℕ}
      → RemoveMove m (heading p) (record m { first = m.first + 1 }) (skipping false (m.first + 1))
  head_exit : {c : ℕ} → m.removed c ≡ false → RemoveMove m (skipping false c) m (waking c)
  behind_exit : {c : ℕ} → m.removed c ≡ false → RemoveMove m (skipping true c) m outside
  is_removed : {b : Bool} {c : ℕ} → m.removed c ≡ true → RemoveMove m (skipping b c) m (skipped b c)
  skip_end : {b : Bool} {c : ℕ} → c ≡ m.first_not_ready → RemoveMove m (skipped b c) m (waking c)
  skip_more :
      {b : Bool} {c : ℕ} → c ≢ m.first_not_ready → RemoveMove m (skipped b c) m (advancing b c)
  skip_win :
      {b : Bool} {c : ℕ}
      → m.first ≡ c + 1
      → RemoveMove m (advancing b c) (record m { first = c + 1 }) (skipping b (c + 1))
  skip_lose : {b : Bool} {c : ℕ} → m.first ≢ c + 1 → RemoveMove m (advancing b c) m outside
  load_limit : {p c : ℕ} → RemoveMove m (searching p c) m (scanning p c m.first_not_ready)
  scan_end : {p c f : ℕ} → c ≡ f → RemoveMove m (scanning p c f) m (waking c)
  scan_hit :
      {p c f : ℕ}
      → c ≢ f
      → m.handles c ≡ m.handles p
      → RemoveMove m (scanning p c f) m (marking p c)
  scan_miss :
      {p c f : ℕ}
      → c ≢ f
      → m.handles c ≢ m.handles p
      → RemoveMove m (scanning p c f) m (scanning p (c + 1) f)
  mark :
      {p c : ℕ}
      → RemoveMove m (marking p c) (record m { removed = set_at m.removed c true }) (passing p c)
  pass_win :
      {p c : ℕ}
      → m.first ≡ c + 1
      → RemoveMove m (passing p c) (record m { first = c + 1 }) (skipping true (c + 1))
  pass_lose : {p c : ℕ} → m.first ≢ c + 1 → RemoveMove m (passing p c) m outside
  some_run : {c : ℕ} → m.first_not_ready ≢ c → RemoveMove m (waking c) m outside
  none_run : {c : ℕ} → m.first_not_ready ≡ c → RemoveMove m (waking c) m (looking c)
  none_wait : {c : ℕ} → m.last ≡ c → RemoveMove m (looking c) m outside
  some_wait : {c : ℕ} → m.last ≢ c → RemoveMove m (looking c) m (claiming c)
  claim :
      {f : ℕ}
      → m.first_not_ready ≡ f
      → RemoveMove m (claiming f) (record m { first_not_ready = f + 1 }) (lowering_first f)
  claim_lost : {f : ℕ} → m.first_not_ready ≢ f → RemoveMove m (claiming f) m outside
  lower_first :
      {f : ℕ}
      → RemoveMove m
          (lowering_first f)
          (record m { lowered = set_at m.lowered f (m.lowered f + 1) })
          (round f (f + 1))
  load_last : {c f : ℕ} → RemoveMove m (round c f) m (walking c f m.last false)
  walk_none : {c f l : ℕ} → f ≡ l → RemoveMove m (walking c f l false) m outside
  walk_end : {c f l : ℕ} → f ≡ l → RemoveMove m (walking c f l true) m (closing c f l)
  walk_serial :
      {c f l : ℕ} {e : Bool}
      → f ≢ l
      → is_serial_access (m.modes c) (m.modes f) ≡ true
      → RemoveMove m (walking c f l e) m outside
  walk_parallel :
      {c f l : ℕ} {e : Bool}
      → f ≢ l
      → is_serial_access (m.modes c) (m.modes f) ≡ false
      → RemoveMove m (walking c f l e) m (claiming_next c f l)
  claim_next :
      {c f l : ℕ}
      → m.first_not_ready ≡ f
      → RemoveMove m
          (claiming_next c f l)
          (record m { first_not_ready = f + 1 })
          (lowering_next c f l)
  next_lost : {c f l : ℕ} → m.first_not_ready ≢ f → RemoveMove m (claiming_next c f l) m outside
  lower_next :
      {c f l : ℕ}
      → RemoveMove m
          (lowering_next c f l)
          (record m { lowered = set_at m.lowered f (m.lowered f + 1) })
          (walking c (f + 1) l true)
  again : {c f l : ℕ} → m.last ≢ l → RemoveMove m (closing c f l) m (round c f)
  close : {c f l : ℕ} → m.last ≡ l → RemoveMove m (closing c f l) m outside
