-- ===== src/Async/Tasks/Tests.antt =====
-- Runs of the futures of rust_async/task.rs.
use rust_base.Base.{◌+◌, ◌≡◌, refl, true, false, List, [], ◌∷◌}
use rust_base.Sync.{ready, pending}
use rust_base.Async.Tasks.{yield_now, yield_poll}
use rust_base.Async.Tasks.Phases.{Event, polls, acts, fresh, phases}
use rust_base.Async.Tasks.Offloads
use rust_base.Async.Tasks.Offloads.{run-phases}

-- Two tasks poll one after the other, and the other thread is done before the last poll.
abbrev handed_over : List Event
handed_over = polls 3 false ∷ polls 4 false ∷ acts ∷ polls 4 true ∷ []

run-phases_example :
    Offloads.run (λ n. n + 1) handed_over (Offloads.world_of (λ n. n + 1) 6 fresh)
    ≡ Offloads.world_of (λ n. n + 1) 6 (phases handed_over fresh)
run-phases_example = run-phases (λ n. n + 1) 6 handed_over fresh

-- A task that yields is woken at once, and goes on when it is polled again.
yield_poll_twice :
    (yield_poll 3 yield_now ≡ (pending, (3 ∷ [], record { yielded = true })))
    × (yield_poll 3 (record { yielded = true }) ≡ (ready tt, ([], record { yielded = true })))
unfolding yield_poll yield_now
yield_poll_twice = (refl, refl)
