-- ===== src/Sync/Condvar/Tests.antt =====
-- A condition variable of rust_async/sync.rs on concrete schedules of two or three tasks.
use native.Mathlib.Decide.{ℕ_discrete}
use rust_base.Base.{◌≡◌, refl, true, false, some, none, List, [], ◌∷◌, ◌++◌}
use rust_base.Sync.Condvar.{
  start, waits, waiting, relocking, Event, lock, wait, poll, cancel, release, notify_one, run,
}
use rust_base.Sync.Condvar.Invariant.{has_guard}
use rust_base.Sync.Condvar.Notified.{run-relocks}

-- Task 1 waits.
abbrev one_waits : List Event
one_waits = lock 1 ∷ poll 1 ∷ wait 1 ∷ poll 1 ∷ []

is_waiting : (run one_waits start).clients 1 ≡ waits (some 0) waiting
unfolding run start ℕ_discrete
is_waiting = refl

-- Task 2 has the guard when it notifies task 1, and then lets it go.
abbrev relocks : List Event
relocks = one_waits ++ lock 2 ∷ poll 2 ∷ notify_one ∷ poll 1 ∷ release 2 ∷ []

is_relocking : (run relocks start).clients 1 ≡ waits none (relocking (some 0))
unfolding run start ℕ_discrete
is_relocking = refl

is_free : (run relocks start).mutex.locked ≡ false
unfolding run start ℕ_discrete
is_free = refl

run-relocks_example : (run relocks start).runnable 1 ≡ true
run-relocks_example = run-relocks relocks 1 0 none is_relocking is_free

abbrev has_again : List Event
has_again = relocks ++ poll 1 ∷ []

is_owner : has_guard ((run has_again start).clients 1) ≡ true
unfolding run start ℕ_discrete
is_owner = refl

-- Two tasks wait, one is notified, and its future is dropped: the other sleeps on.
abbrev taken_along : List Event
taken_along = one_waits ++ lock 2 ∷ poll 2 ∷ wait 2 ∷ poll 2 ∷ notify_one ∷ cancel 1 ∷ []

sleeps_on : (run taken_along start).runnable 2 ≡ false
unfolding run start ℕ_discrete
sleeps_on = refl
