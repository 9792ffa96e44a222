-- ===== src/Async/Reactor.antt =====
-- `Source` of rust_async/reactor.rs on the pump of its reactor: tasks poll, the IO thread runs the tasks
-- that arm the watch, gets events, and makes the callbacks. A waker is the number of its task.
pub mod Interest
pub mod Armed
pub mod Waker
pub mod Tests
use rust_base.Base.{
  ℕ, ◌+◌, Bool, true, false, ◌&&◌, ◌||◌, Option, none, some, List, [], ◌∷◌, ◌++◌, if◌then◌else◌,
}
use rust_base.Sync.{Poll, ready, pending}
use rust_base.Io.Pump.{
  EpollMessagePump, WatchEntry, WatchMode, read, write, read_write, Added, Flags, Callback,
  can_read, can_write, dispatch, reads, writes, errored, is_registered,
}
use rust_base.Io.Controller.{FdWatchController, watch_file_descriptor}
use rust_base.Io.Controller
use rust_base.Io.Pump

-- `reactor` names the IO runner that the source is bound to.
pub record SourceState : Type 0 where
  pub read_waker : Option ℕ
  pub write_waker : Option ℕ
  pub read_ready : Bool
  pub write_ready : Bool
  pub armed : Option WatchMode
  pub reactor : Option ℕ

-- The source, and what is around it: the tasks that arm, first posted first, with their runner; the
-- callbacks that the pump is about to make; the tasks that were woken, the latest first.
pub record Source : Type 0 where
  pub fd : ℕ
  pub state : SourceState
  pub controller : FdWatchController
  pub pump : EpollMessagePump
  pub arms : List (ℕ × WatchMode)
  pub due : List Callback
  pub woken : List ℕ

-- The eventfd of the pump is the descriptor 0.
unfoldable pub new : ℕ → Source
unfolding Controller.new Pump.new
new fd = record {
  fd = fd;
  state = record {
    read_waker = none;
    write_waker = none;
    read_ready = false;
    write_ready = false;
    armed = none;
    reactor = none;
  };
  controller = Controller.new;
  pump = Pump.new 0;
  arms = [];
  due = [];
  woken = [];
}

abbrev pub desired_of : Option ℕ → Option ℕ → Option WatchMode
desired_of (some r) (some w) = some read_write
desired_of (some r) none = some read
desired_of none (some w) = some write
desired_of none none = none

abbrev pub same_mode : Option WatchMode → Option WatchMode → Bool
same_mode none none = true
same_mode (some read) (some read) = true
same_mode (some write) (some write) = true
same_mode (some read_write) (some read_write) = true
same_mode _ _ = false

abbrev pub or_insert : ℕ → Option ℕ → ℕ
or_insert io none = io
or_insert io (some r) = r

-- `arm` posts a task to the IO runner. The first number is what `io_runner` would give.
unfoldable pub arm : ℕ → WatchMode → Source → Source
arm io mode s = record s {
  state = record s.state { reactor = some (or_insert io s.state.reactor) };
  arms = s.arms ++ (or_insert io s.state.reactor, mode) ∷ [];
}

abbrev pub arm_desired : ℕ → Option WatchMode → Source → Source
unfolding arm
arm_desired io none s = s
arm_desired io (some mode) s = arm io mode s

unfoldable pub update_arm : ℕ → Source → Source
unfolding arm
update_arm io s =
    let desired = desired_of s.state.read_waker s.state.write_waker in
    if same_mode desired s.state.armed
    then s
    else arm_desired io desired (record s { state = record s.state { armed = desired } })

unfoldable pub poll_readable : ℕ → ℕ → Source → Poll Unit × Source
unfolding update_arm
poll_readable io task s =
    if s.state.read_ready
    then (ready tt, record s { state = record s.state { read_ready = false } })
    else (pending, update_arm io (record s { state = record s.state { read_waker = some task } }))

unfoldable pub poll_writable : ℕ → ℕ → Source → Poll Unit × Source
unfolding update_arm
poll_writable io task s =
    if s.state.write_ready
    then (ready tt, record s { state = record s.state { write_ready = false } })
    else (pending, update_arm io (record s { state = record s.state { write_waker = some task } }))

abbrev pub wake : Option ℕ → Source → Source
wake none s = s
wake (some t) s = record s { woken = t ∷ s.woken }

unfoldable pub on_file_can_read : ℕ → Source → Source
unfolding update_arm
on_file_can_read io s = wake s.state.read_waker (
    update_arm io
      (record s { state = record s.state { armed = none; read_ready = true; read_waker = none } }))

unfoldable pub on_file_can_write : ℕ → Source → Source
unfolding update_arm
on_file_can_write io s = wake s.state.write_waker (
    update_arm io (record s {
      state = record s.state { armed = none; write_ready = true; write_waker = none };
    }))

abbrev pub armed_by : Bool × FdWatchController × EpollMessagePump → Source → Source
armed_by (b, c, p) s = record s { controller = c; pump = p }

-- The task that `arm` posted; the source is the watcher 0 of the pump.
unfoldable pub run_arm : Added → Bool → List (ℕ × WatchMode) → Source → Source
unfolding watch_file_descriptor
run_arm added modified [] s = s
run_arm added modified ((io, mode) ∷ arms) s =
    armed_by (watch_file_descriptor s.fd false mode 0 added modified s.controller s.pump)
      (record s { arms = arms })

-- epoll reports what the watch asked for, or an error.
abbrev pub is_reported : Flags → Option WatchEntry → Bool
is_reported f none = false
is_reported f (some e) = errored f || ((f.epollin && reads e.mode) || (f.epollout && writes e.mode))

abbrev pub dispatched : List Callback × EpollMessagePump → Source → Source
dispatched (calls, p) s = record s { pump = p; due = s.due ++ calls }

unfoldable pub on_event : Flags → Source → Source
unfolding dispatch
on_event f s =
    if is_reported f (s.pump.watches s.fd)
    then dispatched (dispatch s.fd f (λ w. true) s.pump) s
    else s

unfoldable pub call_back : ℕ → List Callback → Source → Source
unfolding on_file_can_read on_file_can_write
call_back io [] s = s
call_back io (can_read w fd ∷ due) s = on_file_can_read io (record s { due = due })
call_back io (can_write w fd ∷ due) s = on_file_can_write io (record s { due = due })

pub data Event : Type 0 where
  polls_readable polls_writable : ℕ → ℕ → Event
  arming : Added → Bool → Event
  event : Flags → Event
  calls_back : ℕ → Event

unfoldable pub step : Event → Source → Source
unfolding poll_readable poll_writable run_arm on_event call_back
step (polls_readable io task) s = (poll_readable io task s).1
step (polls_writable io task) s = (poll_writable io task s).1
step (arming added modified) s = run_arm added modified s.arms s
step (event f) s = on_event f s
step (calls_back io) s = call_back io s.due s

unfoldable pub run : List Event → Source → Source
unfolding step
run [] s = s
run (e ∷ es) s = run es (step e s)
