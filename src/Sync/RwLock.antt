-- ===== src/Sync/RwLock.antt =====
-- `RwLock`, `Read`, `Write` and the two guards of rust_async/sync.rs. Each method runs under the
-- standard mutex around `RwInner`. A task can hold several read guards: `shared` lists their holders.
pub mod Invariant
pub mod Step
pub mod Access
use rust_base.Base.{
  ℕ, ◌+◌, ◌-◌, ◌==◌, Bool, true, false, not, ◌&&◌, Option, none, some, List, [], ◌∷◌, if◌then◌else◌,
  update,
}
use rust_base.Sync.{Poll, ready, pending}
use rust_base.Sync.Waiters
use rust_base.Sync.Waiters.{Waiters}
use rust_base.Sync.Tracked.{woken}

pub record RwInner : Type 0 where
  pub readers : ℕ
  pub writer : Bool
  pub read_waiters : Waiters
  pub write_waiters : Waiters

unfoldable pub new : RwInner
new = record {
  readers = 0;
  writer = false;
  read_waiters = Waiters.default;
  write_waiters = Waiters.default;
}

-- `Read::poll`: the answer, the future's identifier from then on, and the new state.
unfoldable pub read_poll : Option ℕ → ℕ → RwInner → Poll Unit × Option ℕ × RwInner
unfolding Waiters.park Waiters.unpark
read_poll id waker s =
    let parked = Waiters.park id waker s.read_waiters in
    if s.writer then (pending, parked.0, record s { read_waiters = parked.1 }) else (
      ready tt,
      none,
      record s { readers = s.readers + 1; read_waiters = Waiters.unpark id s.read_waiters },
    )

-- `Write::poll`
unfoldable pub write_poll : Option ℕ → ℕ → RwInner → Poll Unit × Option ℕ × RwInner
unfolding Waiters.park Waiters.unpark
write_poll id waker s =
    let parked = Waiters.park id waker s.write_waiters in
    if not s.writer && s.readers == 0
    then (
      ready tt,
      none,
      record s { writer = true; write_waiters = Waiters.unpark id s.write_waiters },
    )
    else (pending, parked.0, record s { write_waiters = parked.1 })

-- `drop` of a `Read` and of a `Write`
unfoldable pub read_drop : Option ℕ → RwInner → RwInner
unfolding Waiters.unpark
read_drop id s = record s { read_waiters = Waiters.unpark id s.read_waiters }

unfoldable pub write_drop : Option ℕ → RwInner → RwInner
unfolding Waiters.unpark
write_drop id s = record s { write_waiters = Waiters.unpark id s.write_waiters }

-- `drop` of a `RwLockReadGuard`: the tasks that are woken, and the new state.
unfoldable pub read_guard_drop : RwInner → List ℕ × RwInner
unfolding Waiters.wake_all
read_guard_drop s =
    let readers = s.readers - 1 in
    let (tasks, waiters) = Waiters.wake_all s.write_waiters in
    if readers == 0
    then (tasks, record s { readers = readers; write_waiters = waiters })
    else ([], record s { readers = readers })

-- `drop` of a `RwLockWriteGuard`: the writers that are woken, then the readers.
unfoldable pub write_guard_drop : RwInner → List ℕ × List ℕ × RwInner
unfolding Waiters.wake_all
write_guard_drop s =
    let (writers, write_waiters) = Waiters.wake_all s.write_waiters in
    let (readers, read_waiters) = Waiters.wake_all s.read_waiters in
    (
      writers,
      readers,
      record s { writer = false; write_waiters = write_waiters; read_waiters = read_waiters },
    )

pub data Client : Type 0 where
  absent : Client
  reading : Option ℕ → Client
  writing : Option ℕ → Client
  exclusive : Client

-- The lock and its clients, with whether the task of each was woken since it was last polled.
pub record World : Type 0 where
  pub inner : RwInner
  pub clients : ℕ → Client
  pub shared : List ℕ
  pub runnable : ℕ → Bool

unfoldable pub start : World
unfolding new
start = record { inner = new; clients = λ f. absent; shared = []; runnable = λ f. true }

pub data Event : Type 0 where
  read : ℕ → Event  -- `read()` makes a future
  write : ℕ → Event  -- `write()` makes a future
  poll : ℕ → Event
  cancel : ℕ → Event  -- the future is dropped
  drop_read_guard : ℕ → Event
  drop_write_guard : ℕ → Event

unfoldable pub read_polled : ℕ → World → Poll Unit × Option ℕ × RwInner → World
read_polled f w (ready g, id, inner) = record w {
  inner = inner;
  clients = update w.clients f absent;
  shared = f ∷ w.shared;
}
read_polled f w (pending, id, inner) = record w {
  inner = inner;
  clients = update w.clients f (reading id);
  runnable = update w.runnable f false;
}

unfoldable pub write_polled : ℕ → World → Poll Unit × Option ℕ × RwInner → World
write_polled f w (ready g, id, inner) = record w {
  inner = inner;
  clients = update w.clients f exclusive;
}
write_polled f w (pending, id, inner) = record w {
  inner = inner;
  clients = update w.clients f (writing id);
  runnable = update w.runnable f false;
}

-- The guards without one of the task's, if it has one.
unfoldable pub without : ℕ → List ℕ → Option (List ℕ)
without f [] = none
without f (g ∷ gs) =
    let rest = without f gs in
    if g == f then some gs else elim rest [ none ↦ none | some hs ↦ some (g ∷ hs) ]

unfoldable pub unshare : World → Option (List ℕ) → World
unfolding read_guard_drop
unshare w none = w
unshare w (some guards) =
    let (tasks, inner) = read_guard_drop w.inner in
    record w { inner = inner; shared = guards; runnable = woken tasks w.runnable }

unfoldable pub act : Event → Client → World → World
unfolding read_poll write_poll read_drop write_drop write_guard_drop read_polled write_polled
    unshare without
act (read f) absent w = record w {
  clients = update w.clients f (reading none);
  runnable = update w.runnable f true;
}
act (write f) absent w = record w {
  clients = update w.clients f (writing none);
  runnable = update w.runnable f true;
}
act (poll f) (reading id) w = read_polled f w (read_poll id f w.inner)
act (poll f) (writing id) w = write_polled f w (write_poll id f w.inner)
act (cancel f) (reading id) w = record w {
  inner = read_drop id w.inner;
  clients = update w.clients f absent;
}
act (cancel f) (writing id) w = record w {
  inner = write_drop id w.inner;
  clients = update w.clients f absent;
}
act (drop_read_guard f) _ w = unshare w (without f w.shared)
act (drop_write_guard f) exclusive w =
    let (writers, readers, inner) = write_guard_drop w.inner in
    record w {
      inner = inner;
      clients = update w.clients f absent;
      runnable = woken readers (woken writers w.runnable);
    }
act _ _ w = w

abbrev pub client_of : Event → ℕ
client_of (read f) = f
client_of (write f) = f
client_of (poll f) = f
client_of (cancel f) = f
client_of (drop_read_guard f) = f
client_of (drop_write_guard f) = f

unfoldable pub run : List Event → World → World
unfolding act
run [] w = w
run (e ∷ es) w = run es (act e (w.clients (client_of e)) w)
