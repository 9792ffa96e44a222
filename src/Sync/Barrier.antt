-- ===== src/Sync/Barrier.antt =====
-- `Barrier` and `BarrierWait` of rust_async/sync.rs. Each method runs under the standard mutex around
-- `BarrierInner`. `BarrierWait` has no `drop` of its own, so that a future that is dropped stays
-- counted, and its waker stays in the wait set.
pub mod Invariant
pub mod Groups
use rust_base.Base.{
  ℕ, ◌+◌, ◌==◌, leb, Bool, true, false, Option, none, some, List, [], ◌∷◌, if◌then◌else◌, update,
}
use rust_base.Sync.{Poll, ready, pending}
use rust_base.Sync.Waiters
use rust_base.Sync.Waiters.{Waiters}
use rust_base.Sync.Tracked.{woken}

pub record BarrierInner : Type 0 where
  pub count : ℕ
  pub generation : ℕ
  pub waiters : Waiters

unfoldable pub new : BarrierInner
new = record { count = 0; generation = 0; waiters = Waiters.default }

-- A future of `wait`: the generation that it joined, and its identifier.
pub record BarrierWait : Type 0 where
  pub arrived_at : Option ℕ
  pub id : Option ℕ

abbrev pub wait : BarrierWait
wait = record { arrived_at = none; id = none }

-- The answer, whether the future is the leader; the future and the state from then on; and the tasks
-- that are woken.
pub record Step : Type 0 where
  pub answer : Poll Bool
  pub future : BarrierWait
  pub after : BarrierInner
  pub tasks : List ℕ

-- The first poll, with the count that it makes.
unfoldable pub join : ℕ → Option ℕ → ℕ → BarrierInner → Step
unfolding Waiters.park Waiters.wake_all
join n id waker s =
    let count = s.count + 1 in
    let arrived_at = some s.generation in
    let (tasks, waiters) = Waiters.wake_all s.waiters in
    let parked = Waiters.park id waker s.waiters in
    if leb n count
    then record {
      answer = ready true;
      future = record { arrived_at = arrived_at; id = id };
      after = record { count = 0; generation = s.generation + 1; waiters = waiters };
      tasks = tasks;
    }
    else record {
      answer = pending;
      future = record { arrived_at = arrived_at; id = parked.0 };
      after = record s { count = count; waiters = parked.1 };
      tasks = [];
    }

-- A later poll.
unfoldable pub again : ℕ → Option ℕ → ℕ → BarrierInner → Step
unfolding Waiters.park Waiters.unpark
again joined_gen id waker s =
    let parked = Waiters.park id waker s.waiters in
    if s.generation == joined_gen
    then record {
      answer = pending;
      future = record { arrived_at = some joined_gen; id = parked.0 };
      after = record s { waiters = parked.1 };
      tasks = [];
    }
    else record {
      answer = ready false;
      future = record { arrived_at = some joined_gen; id = none };
      after = record s { waiters = Waiters.unpark id s.waiters };
      tasks = [];
    }

unfoldable pub wait_poll : ℕ → Option ℕ → Option ℕ → ℕ → BarrierInner → Step
unfolding join again
wait_poll n none id waker s = join n id waker s
wait_poll n (some joined_gen) id waker s = again joined_gen id waker s

pub data Client : Type 0 where
  absent : Client
  waiting : Option ℕ → Option ℕ → Client

-- The barrier and its clients, with whether the task of each was woken since it was last polled, the
-- number of futures that have joined a generation, and the generations whose leader was told so, newest
-- first.
pub record World : Type 0 where
  pub inner : BarrierInner
  pub clients : ℕ → Client
  pub runnable : ℕ → Bool
  pub joined : ℕ
  pub led : List ℕ

unfoldable pub start : World
unfolding new
start = record { inner = new; clients = λ f. absent; runnable = λ f. true; joined = 0; led = [] }

pub data Event : Type 0 where
  enter : ℕ → Event  -- `wait()` makes a future
  poll : ℕ → Event
  cancel : ℕ → Event  -- the future is dropped

abbrev arrivals : Option ℕ → ℕ
arrivals none = 1
arrivals (some joined_gen) = 0

unfoldable pub settled : ℕ → World → Poll Bool → Step → World
settled f w (ready true) r = record {
  inner = r.after;
  clients = update w.clients f absent;
  runnable = woken r.tasks w.runnable;
  joined = w.joined;
  led = w.inner.generation ∷ w.led;
}
settled f w (ready false) r = record w {
  inner = r.after;
  clients = update w.clients f absent;
  runnable = woken r.tasks w.runnable;
}
settled f w pending r = record w {
  inner = r.after;
  clients = update w.clients f (waiting r.future.arrived_at r.future.id);
  runnable = update (woken r.tasks w.runnable) f false;
}

unfoldable pub act : ℕ → Event → Client → World → World
unfolding settled wait_poll
act n (enter f) absent w = record w {
  clients = update w.clients f (waiting none none);
  runnable = update w.runnable f true;
}
act n (poll f) (waiting arrived_at id) w =
    let r = wait_poll n arrived_at id f w.inner in
    settled f (record w { joined = w.joined + arrivals arrived_at }) r.answer r
act n (cancel f) (waiting arrived_at id) w = record w { clients = update w.clients f absent }
act n _ _ w = w

abbrev pub client_of : Event → ℕ
client_of (enter f) = f
client_of (poll f) = f
client_of (cancel f) = f

unfoldable pub run : ℕ → List Event → World → World
unfolding act
run n [] w = w
run n (e ∷ es) w = run n es (act n e (w.clients (client_of e)) w)
