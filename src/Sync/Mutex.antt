-- ===== src/Sync/Mutex.antt =====
-- `Mutex`, `Lock` and `MutexGuard` of rust_async/sync.rs. Each method runs under the standard mutex
-- around `MutexInner`. A client is a task that may hold a future of `lock`, with the identifier that
-- it has in the wait set, or a guard.
pub mod Invariant
pub mod Wakeups
use rust_base.Base.{
  ℕ, Bool, true, false, Option, none, some, List, [], ◌∷◌, ◌||◌, if◌then◌else◌, update,
}
use rust_base.Sync.{Poll, ready, pending}
use rust_base.Sync.Waiters
use rust_base.Sync.Waiters.{Waiters}
use rust_base.Sync.Tracked.{woken}

pub record MutexInner : Type 0 where
  pub locked : Bool
  pub waiters : Waiters

unfoldable pub new : MutexInner
new = record { locked = false; waiters = Waiters.default }

-- Whether the guard was got, and the new state.
unfoldable pub try_lock : MutexInner → Bool × MutexInner
try_lock s = if s.locked then (false, s) else (true, record s { locked = true })

-- `Lock::poll`: the answer, the future's identifier from then on, and the new state.
unfoldable pub lock_poll : Option ℕ → ℕ → MutexInner → Poll Unit × Option ℕ × MutexInner
unfolding Waiters.park Waiters.unpark
lock_poll id waker s =
    let parked = Waiters.park id waker s.waiters in
    if s.locked
    then (pending, parked.0, record s { waiters = parked.1 })
    else (ready tt, none, record { locked = true; waiters = Waiters.unpark id s.waiters })

-- `drop` of a `Lock`
unfoldable pub lock_drop : Option ℕ → MutexInner → MutexInner
unfolding Waiters.unpark
lock_drop id s = record s { waiters = Waiters.unpark id s.waiters }

-- `drop` of a `MutexGuard`: the tasks that are woken, and the new state.
unfoldable pub guard_drop : MutexInner → List ℕ × MutexInner
unfolding Waiters.wake_all
guard_drop s =
    let (tasks, waiters) = Waiters.wake_all s.waiters in
    (tasks, record { locked = false; waiters = waiters })

pub data Client : Type 0 where
  absent : Client
  locking : Option ℕ → Client
  holding : Client

-- The mutex and its clients, with whether the task of each was woken since it was last polled.
pub record World : Type 0 where
  pub inner : MutexInner
  pub clients : ℕ → Client
  pub runnable : ℕ → Bool

unfoldable pub start : World
unfolding new
start = record { inner = new; clients = λ f. absent; runnable = λ f. true }

pub data Event : Type 0 where
  lock : ℕ → Event  -- `lock()` makes a future
  try : ℕ → Event
  poll : ℕ → Event
  cancel : ℕ → Event  -- the future is dropped
  release : ℕ → Event  -- the guard is dropped

unfoldable pub polled : ℕ → World → Poll Unit × Option ℕ × MutexInner → World
polled f w (ready g, id, inner) = record w { inner = inner; clients = update w.clients f holding }
polled f w (pending, id, inner) = record {
  inner = inner;
  clients = update w.clients f (locking id);
  runnable = update w.runnable f false;
}

unfoldable pub tried : ℕ → World → Bool × MutexInner → World
tried f w (false, inner) = w
tried f w (true, inner) = record w { inner = inner; clients = update w.clients f holding }

-- What a client does, by what it has.
unfoldable pub act : Event → Client → World → World
unfolding polled tried try_lock lock_poll lock_drop guard_drop
act (lock f) absent w = record w {
  clients = update w.clients f (locking none);
  runnable = update w.runnable f true;
}
act (try f) absent w = tried f w (try_lock w.inner)
act (poll f) (locking id) w = polled f w (lock_poll id f w.inner)
act (cancel f) (locking id) w = record w {
  inner = lock_drop id w.inner;
  clients = update w.clients f absent;
}
act (release f) holding w =
    let (tasks, inner) = guard_drop w.inner in
    record { inner = inner; clients = update w.clients f absent; runnable = woken tasks w.runnable }
act _ _ w = w

abbrev pub client_of : Event → ℕ
client_of (lock f) = f
client_of (try f) = f
client_of (poll f) = f
client_of (cancel f) = f
client_of (release f) = f

unfoldable pub run : List Event → World → World
unfolding act
run [] w = w
run (e ∷ es) w = run es (act e (w.clients (client_of e)) w)
