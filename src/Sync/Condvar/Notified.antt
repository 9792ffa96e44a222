-- ===== src/Sync/Condvar/Notified.antt =====
-- What the clients of a condition variable (rust_async/sync.rs) can rely on, however they interleave.
use rust_base.Base.{ℕ, ◌≡◌, ◌⊎◌, inl, inr, ap, true, false, Option, some, List, arith}
use rust_base.Sync.Waiters.{get}
use rust_base.Sync.Condvar.{start, waits, waiting, relocking, Event, run}
use rust_base.Sync.Condvar.Invariant.{has_guard, lock_id, wait_id, Sound}
use rust_base.Sync.Condvar.Step.{run-Sound, start-Sound}

-- Whatever the schedule of locks, waits, notifications, polls and drops, two tasks that have the guard
-- of the mutex, on its own or in a future of `wait` that was not polled yet, are the same, and the mutex
-- is locked.
pub run-one_owner :
    (es : List Event) (f g : ℕ)
    → has_guard ((run es start).clients f) ≡ true
    → has_guard ((run es start).clients g) ≡ true
    → (f ≡ g) × ((run es start).mutex.locked ≡ true)
run-one_owner es f g e h =
    let x = run-Sound es start start-Sound in (x.guards.unique f g e h, x.guards.held f e)

-- Whatever the schedule, a future of `wait` that has released the mutex is parked in the condition
-- variable, so that a notification finds it, or its task has been woken since it was last polled.
pub run-parked :
    (es : List Event) (f k : ℕ)
    → (run es start).clients f ≡ waits (some k) waiting
    → (get k (run es start).condvar.map ≡ some f) ⊎ ((run es start).runnable f ≡ true)
run-parked es f k e = (run-Sound es start start-Sound).for_notice.waiting f k (ap wait_id e)

-- Whatever the schedule, a future of `wait` that was notified and waits for the mutex, while the mutex
-- is free, has had its task woken since it was last polled.
pub run-relocks :
    (es : List Event) (f k : ℕ) (id : Option ℕ)
    → (run es start).clients f ≡ waits id (relocking (some k))
    → (run es start).mutex.locked ≡ false
    → (run es start).runnable f ≡ true
run-relocks es f k id e l = go (x.for_lock.waiting f k (ap lock_id e))
  where
    x : Sound (run es start)
    x = run-Sound es start start-Sound

    go :
        (get k (run es start).mutex.waiters.map ≡ some f) ⊎ ((run es start).runnable f ≡ true)
        → (run es start).runnable f ≡ true
    go (inl q) = let p = x.nobody_parked l in ground arith
    go (inr q) = q
