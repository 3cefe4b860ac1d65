-- ===== src/WaitCounter/Tests.antt =====
-- The counter of a task that asks for two resources: one is free, the other one becomes free
-- before the registration ends.
use rg.Prelude.{◌+◌, ◌≡◌, true, false, List, [], ◌∷◌, ◌++◌, arith}
use rg.WaitCounter.{
  Event, granted, notified, registered, invalid_wait_state, launches, launch_count, final_count,
}
use rg.WaitCounter.Launch.{Updates, over, grant, notify, register, launched_once}

abbrev before : List Event
before = granted ∷ notified ∷ []

two_resources : Updates 0 2 false (before ++ (registered ∷ []))
two_resources = grant (notify (register over))

launched_once_example :
    (launch_count before (invalid_wait_state + 2) ≡ 0)
    × (launches registered (final_count before (invalid_wait_state + 2)) ≡ true)
    × (final_count (before ++ (registered ∷ [])) (invalid_wait_state + 2) ≡ 0)
launched_once_example = launched_once before registered two_resources (omega arith)
