-- ===== src/Sync/Condvar.antt =====
-- `Condvar` and `CondvarWait` of rust_async/sync.rs, with the `Mutex` that they are used with. A client
-- is a task that may hold a future of `lock`, a guard, or a future of `wait`.
pub mod Invariant
pub mod Step
pub mod Notified
pub mod Tests
use rust_base.Base.{
  ℕ, Bool, true, false, Option, none, some, List, [], ◌∷◌, ◌||◌, if◌then◌else◌, update,
}
use rust_base.Sync.{Poll, ready, pending}
use rust_base.Sync.Waiters
use rust_base.Sync.Waiters.{Waiters}
use rust_base.Sync.Tracked.{woken}
use rust_base.Sync.Mutex
use rust_base.Sync.Mutex.{MutexInner}

-- With the guard, or with the future of `lock`, that the source keeps in it.
pub data WaitState : Type 0 where
  init waiting : WaitState
  relocking : Option ℕ → WaitState

pub data Client : Type 0 where
  absent : Client
  locking : Option ℕ → Client
  holding : Client
  waits : Option ℕ → WaitState → Client

-- The condition variable and the mutex with their clients, and whether the task of each was woken since
-- it was last polled.
pub record World : Type 0 where
  pub condvar : Waiters
  pub mutex : MutexInner
  pub clients : ℕ → Client
  pub runnable : ℕ → Bool

unfoldable pub start : World
unfolding Mutex.new
start = record {
  condvar = Waiters.default;
  mutex = Mutex.new;
  clients = λ f. absent;
  runnable = λ f. true;
}

pub data Event : Type 0 where
  lock : ℕ → Event
  wait : ℕ → Event  -- `wait(guard)` makes a future
  poll : ℕ → Event
  cancel : ℕ → Event  -- the future is dropped
  release : ℕ → Event  -- the guard is dropped
  notify_one notify_all : Event

-- The answer of a future of `lock`, alone or within a future of `wait`.
unfoldable pub locked_by :
    ℕ → (Option ℕ → Client) → World → Poll Unit × Option ℕ × MutexInner → World
locked_by f again w (ready g, id, inner) = record w {
  mutex = inner;
  clients = update w.clients f holding;
}
locked_by f again w (pending, id, inner) = record w {
  mutex = inner;
  clients = update w.clients f (again id);
  runnable = update w.runnable f false;
}

-- A guard goes, and the client turns to something else.
unfoldable pub unlocked : ℕ → Client → World → World
unfolding Mutex.guard_drop
unlocked f c w =
    let (tasks, inner) = Mutex.guard_drop w.mutex in
    record w { mutex = inner; clients = update w.clients f c; runnable = woken tasks w.runnable }

-- `CondvarWait::poll`, by the state. A future that was notified goes on to the lock at once.
unfoldable pub wait_poll : ℕ → Option ℕ → WaitState → World → World
unfolding Waiters.park Waiters.unpark unlocked locked_by Mutex.lock_poll
wait_poll f id init w =
    let parked = Waiters.park id f w.condvar in
    let w' = unlocked f (waits parked.0 waiting) w in
    record w' { condvar = parked.1; runnable = update w'.runnable f false }
wait_poll f id waiting w =
    locked_by f (λ l. waits none (relocking l)) (record w { condvar = Waiters.unpark id w.condvar })
      (Mutex.lock_poll none f w.mutex)
wait_poll f id (relocking l) w =
    locked_by f (λ k. waits id (relocking k)) w (Mutex.lock_poll l f w.mutex)

-- `drop` of a `CondvarWait`, with what its state holds.
unfoldable pub wait_drop : ℕ → Option ℕ → WaitState → World → World
unfolding Waiters.unpark unlocked Mutex.lock_drop
wait_drop f id init w = unlocked f absent w
wait_drop f id waiting w = record w {
  condvar = Waiters.unpark id w.condvar;
  clients = update w.clients f absent;
}
wait_drop f id (relocking l) w = record w {
  mutex = Mutex.lock_drop l w.mutex;
  clients = update w.clients f absent;
}

unfoldable pub notified : World → List ℕ × Waiters → World
notified w (tasks, condvar) = record w { condvar = condvar; runnable = woken tasks w.runnable }

unfoldable pub act : Event → Client → World → World
unfolding Waiters.wake_one Waiters.wake_all notified locked_by wait_poll wait_drop unlocked
    Mutex.lock_poll Mutex.lock_drop
act notify_one _ w = notified w (Waiters.wake_one w.condvar)
act notify_all _ w = notified w (Waiters.wake_all w.condvar)
act (lock f) absent w = record w {
  clients = update w.clients f (locking none);
  runnable = update w.runnable f true;
}
act (wait f) holding w = record w {
  clients = update w.clients f (waits none init);
  runnable = update w.runnable f true;
}
act (poll f) (locking id) w = locked_by f locking w (Mutex.lock_poll id f w.mutex)
act (poll f) (waits id s) w = wait_poll f id s w
act (cancel f) (locking id) w = record w {
  mutex = Mutex.lock_drop id w.mutex;
  clients = update w.clients f absent;
}
act (cancel f) (waits id s) w = wait_drop f id s w
act (release f) holding w = unlocked f absent w
act _ _ w = w

-- A notification comes from anywhere.
abbrev pub client_of : Event → ℕ
client_of (lock f) = f
client_of (wait f) = f
client_of (poll f) = f
client_of (cancel f) = f
client_of (release f) = f
client_of notify_one = 0
client_of notify_all = 0

unfoldable pub run : List Event → World → World
unfolding act
run [] w = w
run (e ∷ es) w = run es (act e (w.clients (client_of e)) w)
