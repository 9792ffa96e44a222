-- ===== src/Sync/Channel.antt =====
-- `channel`, `Sender`, `Receiver` and `Recv` of rust_async/sync.rs. Each method runs under the standard
-- mutex around `ChanInner`. A handle exists for each unit of `senders` and of `receivers`; only code
-- that has one can send with it, clone it or drop it.
pub mod Invariant
pub mod Delivery
use rust_base.Base.{
  ℕ, ◌+◌, ◌-◌, ◌==◌, Bool, true, false, Option, none, some, List, [], ◌∷◌, ◌++◌, if◌then◌else◌,
  update,
}
use rust_base.Sync.{Poll, ready, pending}
use rust_base.Sync.Waiters
use rust_base.Sync.Waiters.{Waiters}
use rust_base.Sync.Tracked.{woken}

pub record ChanInner (T : Type 0) : Type 0 where
  pub items : List T
  pub recv_waiters : Waiters
  pub senders : ℕ
  pub receivers : ℕ

-- `Result<T, RecvError>`
pub data Received (T : Type 0) : Type 0 where
  value : T → Received T
  closed : Received T

pub data Client : Type 0 where
  absent : Client
  receiving : Option ℕ → Client

pub data Event (T : Type 0) : Type 0 where
  send : T → Event T
  clone_sender drop_sender clone_receiver drop_receiver : Event T
  recv : ℕ → Event T  -- `recv()` makes a future
  poll : ℕ → Event T
  cancel : ℕ → Event T  -- the future is dropped

-- The channel and the futures of its receivers, with whether the task of each was woken since it was
-- last polled, the values that `send` accepted, and those that were received.
pub record World (T : Type 0) : Type 0 where
  pub inner : ChanInner T
  pub clients : ℕ → Client
  pub runnable : ℕ → Bool
  pub sent : List T
  pub received : List T

module _ {T : Type 0} where
  unfoldable pub channel : ChanInner T
  channel = record { items = []; recv_waiters = Waiters.default; senders = 1; receivers = 1 }

  -- Whether the value was accepted, the tasks that are woken, and the new state.
  unfoldable pub try_send : T → ChanInner T → Bool × List ℕ × ChanInner T
  unfolding Waiters.wake_all
  try_send v s =
      let (tasks, waiters) = Waiters.wake_all s.recv_waiters in
      if s.receivers == 0
      then (false, [], s)
      else (true, tasks, record s { items = s.items ++ v ∷ []; recv_waiters = waiters })

  unfoldable pub sender_clone : ChanInner T → ChanInner T
  sender_clone s = record s { senders = s.senders + 1 }

  unfoldable pub sender_drop : ChanInner T → List ℕ × ChanInner T
  unfolding Waiters.wake_all
  sender_drop s =
      let senders = s.senders - 1 in
      let (tasks, waiters) = Waiters.wake_all s.recv_waiters in
      if senders == 0
      then (tasks, record s { senders = senders; recv_waiters = waiters })
      else ([], record s { senders = senders })

  unfoldable pub receiver_clone : ChanInner T → ChanInner T
  receiver_clone s = record s { receivers = s.receivers + 1 }

  unfoldable pub receiver_drop : ChanInner T → ChanInner T
  receiver_drop s = record s { receivers = s.receivers - 1 }

  -- `Recv::poll` on the items: the answer, the future's identifier from then on, and the new state.
  unfoldable pub recv_items :
      Option ℕ → ℕ → ChanInner T → List T → Poll (Received T) × Option ℕ × ChanInner T
  unfolding Waiters.park Waiters.unpark
  recv_items id waker s (v ∷ items) = (
    ready (value v),
    none,
    record s { items = items; recv_waiters = Waiters.unpark id s.recv_waiters },
  )
  recv_items id waker s [] =
      let parked = Waiters.park id waker s.recv_waiters in
      if s.senders == 0
      then (ready closed, none, record s { recv_waiters = Waiters.unpark id s.recv_waiters })
      else (pending, parked.0, record s { recv_waiters = parked.1 })

  unfoldable pub recv_poll : Option ℕ → ℕ → ChanInner T → Poll (Received T) × Option ℕ × ChanInner T
  unfolding recv_items
  recv_poll id waker s = recv_items id waker s s.items

  unfoldable pub recv_drop : Option ℕ → ChanInner T → ChanInner T
  unfolding Waiters.unpark
  recv_drop id s = record s { recv_waiters = Waiters.unpark id s.recv_waiters }

  unfoldable pub start : World T
  unfolding channel
  start = record {
    inner = channel;
    clients = λ f. absent;
    runnable = λ f. true;
    sent = [];
    received = [];
  }

  unfoldable pub after_send : T → World T → Bool × List ℕ × ChanInner T → World T
  after_send v w (false, tasks, inner) = w
  after_send v w (true, tasks, inner) = record w {
    inner = inner;
    runnable = woken tasks w.runnable;
    sent = w.sent ++ v ∷ [];
  }

  unfoldable pub polled : ℕ → World T → Poll (Received T) × Option ℕ × ChanInner T → World T
  polled f w (ready (value v), id, inner) = record w {
    inner = inner;
    clients = update w.clients f absent;
    received = w.received ++ v ∷ [];
  }
  polled f w (ready closed, id, inner) = record w {
    inner = inner;
    clients = update w.clients f absent;
  }
  polled f w (pending, id, inner) = record w {
    inner = inner;
    clients = update w.clients f (receiving id);
    runnable = update w.runnable f false;
  }

  unfoldable pub poll_client : ℕ → Client → World T → World T
  unfolding polled recv_poll
  poll_client f absent w = w
  poll_client f (receiving id) w = polled f w (recv_poll id f w.inner)

  unfoldable pub cancel_client : ℕ → Client → World T → World T
  unfolding recv_drop
  cancel_client f absent w = w
  cancel_client f (receiving id) w = record w {
    inner = recv_drop id w.inner;
    clients = update w.clients f absent;
  }

  unfoldable pub recv_client : ℕ → Client → World T → World T
  recv_client f absent w = record w {
    clients = update w.clients f (receiving none);
    runnable = update w.runnable f true;
  }
  recv_client f (receiving id) w = w

  unfoldable pub after_drop : World T → List ℕ × ChanInner T → World T
  after_drop w (tasks, inner) = record w { inner = inner; runnable = woken tasks w.runnable }

  -- Without a handle nothing happens.
  unfoldable pub step : Event T → World T → World T
  unfolding try_send sender_clone sender_drop receiver_clone receiver_drop after_send after_drop
      poll_client cancel_client recv_client
  step (send v) w = if w.inner.senders == 0 then w else after_send v w (try_send v w.inner)
  step clone_sender w =
      if w.inner.senders == 0 then w else record w { inner = sender_clone w.inner }
  step drop_sender w = if w.inner.senders == 0 then w else after_drop w (sender_drop w.inner)
  step clone_receiver w =
      if w.inner.receivers == 0 then w else record w { inner = receiver_clone w.inner }
  step drop_receiver w =
      if w.inner.receivers == 0 then w else record w { inner = receiver_drop w.inner }
  step (recv f) w = if w.inner.receivers == 0 then w else recv_client f (w.clients f) w
  step (poll f) w = poll_client f (w.clients f) w
  step (cancel f) w = cancel_client f (w.clients f) w

  unfoldable pub run : List (Event T) → World T → World T
  unfolding step
  run [] w = w
  run (e ∷ es) w = run es (step e w)
