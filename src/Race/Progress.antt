-- ===== src/Race/Progress.antt =====
-- include/ResourceNode.hpp: within a call of `remove_task` there is a next step, and fewer are left after it.
use rg.Prelude.{
  ℕ, Bool, ◌+◌, ◌-◌, ◌*◌, ◌<◌, true, false, ◌≡◌, ◌≢◌, inl, inr, refl, arith, Bool-cases,
}
use mathlib.Core.Logic.{ite}
use native.Mathlib.Decide.{ℕ_discrete}
use rg.Access.{is_serial_access}
use rg.Race.{
  Mem, Remover, outside, entering, heading, skipping, skipped, advancing, searching, scanning,
  marking, passing, waking, looking, claiming, lowering_first, round, walking, claiming_next,
  lowering_next, closing, RemoveMove, enter, is_head, is_behind, advance_head, head_exit,
  behind_exit, is_removed, skip_end, skip_more, skip_win, skip_lose, load_limit, scan_end, scan_hit,
  scan_miss, mark, pass_win, pass_lose, some_run, none_run, none_wait, some_wait, claim, claim_lost,
  lower_first, load_last, walk_none, walk_end, walk_serial, walk_parallel, claim_next, next_lost,
  lower_next, again, close,
}
use rg.Race.Invariant.{MemInv, RemoverFits}
use rg.Race.Removing.{guard}

-- The steps that are left at most.
abbrev pub stale : Mem → ℕ → ℕ
stale m l = ite (ℕ_discrete m.last l) 0 3

abbrev pub steps_left : Mem → Remover → ℕ
steps_left m outside = 0
steps_left m (entering p) = 3 * (m.last - m.first) + 6
steps_left m (heading p) = 3 * (m.last - m.first) + 5
steps_left m (skipping b c) = 3 * (m.last - c) + 7
steps_left m (skipped b c) = 3 * (m.last - c) + 6
steps_left m (advancing b c) = 3 * (m.last - c) + 5
steps_left m (searching p c) = m.first_not_ready - c + 3
steps_left m (scanning p c f) = f - c + 2
steps_left m (marking p c) = 2
steps_left m (passing p c) = 1
steps_left m (waking c) = 3 * (m.last - c) + 4
steps_left m (looking c) = 3 * (m.last - c) + 3
steps_left m (claiming f) = 3 * (m.last - f) + 2
steps_left m (lowering_first f) = 3 * (m.last - f) + 1
steps_left m (round c f) = 3 * (m.last - f) + 3
steps_left m (walking c f l e) = 3 * (m.last - f) + stale m l + 2
steps_left m (claiming_next c f l) = 3 * (m.last - f) + stale m l + 1
steps_left m (lowering_next c f l) = 3 * (m.last - f) + stale m l
steps_left m (closing c f l) = 3 * (m.last - f) + stale m l + 1

module _ {m : Mem} (inv : MemInv m) where
  open inv use {running, waiting, room}

  pub RemoveMove-steps_left :
      {m' : Mem} {r r' : Remover}
      → RemoveMove m r m' r'
      → r ≢ outside
      → RemoverFits m r
      → steps_left m' r' < steps_left m r
  RemoveMove-steps_left (enter p g h) n f = absurd (n refl)
  RemoveMove-steps_left (load_last) n f = ground arith
  RemoveMove-steps_left (again g) n f = ground arith
  RemoveMove-steps_left mv n f = ground (arith, guard mv)

  -- Within a call there is always a next step.
  pub next_move : (r : Remover) → r ≢ outside → (m' : Mem) × ((r' : Remover) × RemoveMove m r m' r')
  next_move outside n = absurd (n refl)
  next_move (entering p) n = elim (ℕ_discrete (m.handles m.first) (m.handles p)) [
    | yes e ↦ (m, (heading p, is_head e))
    | no d ↦ (m, (searching p (m.first + 1), is_behind d))
  ]
  next_move (heading p) n = (_, (_, advance_head))
  next_move (skipping false c) n = elim (Bool-cases (m.removed c)) [
    | inl e ↦ (_, (_, is_removed e))
    | inr e ↦ (_, (_, head_exit e))
  ]
  next_move (skipping true c) n = elim (Bool-cases (m.removed c)) [
    | inl e ↦ (_, (_, is_removed e))
    | inr e ↦ (_, (_, behind_exit e))
  ]
  next_move (skipped b c) n = elim (ℕ_discrete c m.first_not_ready) [
    | yes e ↦ (_, (_, skip_end e))
    | no d ↦ (_, (_, skip_more d))
  ]
  next_move (advancing b c) n = elim (ℕ_discrete m.first (c + 1)) [
    | yes e ↦ (_, (_, skip_win e))
    | no d ↦ (_, (_, skip_lose d))
  ]
  next_move (searching p c) n = (_, (_, load_limit))
  next_move (scanning p c f) n = elim (ℕ_discrete c f) [
    | yes e ↦ (_, (_, scan_end e))
    | no d ↦ elim (ℕ_discrete (m.handles c) (m.handles p)) [
      | yes e ↦ (_, (_, scan_hit d e))
      | no ne ↦ (_, (_, scan_miss d ne))
    ]
  ]
  next_move (marking p c) n = (_, (_, mark))
  next_move (passing p c) n = elim (ℕ_discrete m.first (c + 1)) [
    | yes e ↦ (_, (_, pass_win e))
    | no d ↦ (_, (_, pass_lose d))
  ]
  next_move (waking c) n = elim (ℕ_discrete m.first_not_ready c) [
    | yes e ↦ (_, (_, none_run e))
    | no d ↦ (_, (_, some_run d))
  ]
  next_move (looking c) n = elim (ℕ_discrete m.last c) [
    | yes e ↦ (_, (_, none_wait e))
    | no d ↦ (_, (_, some_wait d))
  ]
  next_move (claiming f) n = elim (ℕ_discrete m.first_not_ready f) [
    | yes e ↦ (_, (_, claim e))
    | no d ↦ (_, (_, claim_lost d))
  ]
  next_move (lowering_first f) n = (_, (_, lower_first))
  next_move (round c f) n = (_, (_, load_last))
  next_move (walking c f l e) n = elim (ℕ_discrete f l) [
    | yes same ↦ walk_over e same
    | no d ↦ elim (Bool-cases (is_serial_access (m.modes c) (m.modes f))) [
      | inl s ↦ (_, (_, walk_serial d s))
      | inr p ↦ (_, (_, walk_parallel d p))
    ]
  ]
    where
      walk_over :
          (e : Bool) → f ≡ l → (m' : Mem) × ((r' : Remover) × RemoveMove m (walking c f l e) m' r')
      walk_over true same = (_, (_, walk_end same))
      walk_over false same = (_, (_, walk_none same))
  next_move (claiming_next c f l) n = elim (ℕ_discrete m.first_not_ready f) [
    | yes e ↦ (_, (_, claim_next e))
    | no d ↦ (_, (_, next_lost d))
  ]
  next_move (lowering_next c f l) n = (_, (_, lower_next))
  next_move (closing c f l) n = elim (ℕ_discrete m.last l) [
    | yes e ↦ (_, (_, close e))
    | no d ↦ (_, (_, again d))
  ]
