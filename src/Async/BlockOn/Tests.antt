-- ===== src/Async/BlockOn/Tests.antt =====
-- Runs of `block_on` of rust_async/block_on.rs.
use rust_base.Base.{◌≡◌, refl, true, false, List, [], ◌∷◌}
use rust_base.Async.BlockOn.{returned, new, Event, thread, wakes, stores, unparks, run}
use rust_base.Async.BlockOn.Awoken.{run-never_stuck}

-- The thread parks while the future is not ready, and a waker that is no news wakes it once.
abbrev idle : List Event
idle =
    thread false
    ∷ thread false
    ∷ wakes false
    ∷ stores
    ∷ unparks
    ∷ thread false
    ∷ thread false
    ∷ thread false
    ∷ thread false
    ∷ []

-- The future is completed between the poll and the swap.
abbrev raced : List Event
raced = thread false ∷ wakes true ∷ stores ∷ thread false ∷ thread false ∷ []

raced_returns : (run raced new).pc ≡ returned
unfolding run new
raced_returns = refl

run-never_stuck_example : (run idle new).completed ≡ false
unfolding run new
run-never_stuck_example = run-never_stuck idle refl refl refl refl
