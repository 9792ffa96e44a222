-- ===== src/Sync/Mutex/Wakeups.antt =====
-- What the clients of a mutex (rust_async/sync.rs) can rely on, however they interleave.
use rust_base.Base.{ℕ, ◌≡◌, ◌↔◌, ◌⊎◌, inl, inr, ap, true, false, some, List, arith}
use rust_base.Sync.Mutex.{start, locking, holding, Event, run}
use rust_base.Sync.Waiters.{get}
use rust_base.Sync.Mutex.Invariant.{id_of, Sound, run-Sound, start-Sound}

-- Whatever the schedule of locks, tries, polls, cancellations and releases, two tasks that have a guard
-- are the same, and the flag is set.
pub run-one_guard :
    (es : List Event) (f g : ℕ)
    → (run es start).clients f ≡ holding
    → (run es start).clients g ≡ holding
    → (f ≡ g) × ((run es start).inner.locked ≡ true)
run-one_guard es f g e h = let x = run-Sound es start start-Sound in (x.unique f g e h, x.held f e)

-- Whatever the schedule, the flag is set exactly when some task has the guard.
pub run-locked :
    (es : List Event)
    → ((run es start).inner.locked ≡ true) ↔ (f : ℕ) × ((run es start).clients f ≡ holding)
run-locked es = let x = run-Sound es start start-Sound in (x.holder, λ (f, e). x.held f e)

-- Whatever the schedule, a future of `lock` that waits while the mutex is free has had its task woken
-- since it was last polled: no wake-up is lost, cancelled futures included.
pub run-woken :
    (es : List Event) (f k : ℕ)
    → (run es start).clients f ≡ locking (some k)
    → (run es start).inner.locked ≡ false
    → (run es start).runnable f ≡ true
run-woken es f k e l = go (x.tracked.waiting f k (ap id_of e))
  where
    x : Sound (run es start)
    x = run-Sound es start start-Sound

    go :
        (get k (run es start).inner.waiters.map ≡ some f) ⊎ ((run es start).runnable f ≡ true)
        → (run es start).runnable f ≡ true
    go (inl q) = let p = x.nobody_parked l in ground arith
    go (inr q) = q
