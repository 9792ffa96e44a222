-- ===== src/Net/Socket.antt =====
-- `SocketPosix` of rust_net/socket_posix.rs on the pump that watches its descriptor. A callback is a
-- number, given out in the order of the calls; it is called last in an operation, so that what it does
-- is the next events. Of an operation with a timeout, the code posts the timeout after the callback;
-- here it is posted before, which no one sees, since a timeout only runs from the IO loop.
pub mod Ops
pub mod Fire
pub mod Events
pub mod Uses
pub mod Slots
pub mod Emptied
pub mod Once
pub mod Timeouts
pub mod Newer
pub mod Duplex
pub mod Tests
use rust_base.Base.{
  ℕ, ◌+◌, ◌==◌, Bool, true, false, Option, none, some, List, [], ◌∷◌, ◌++◌, if◌then◌else◌,
}
use rust_base.Pool.Schedule.{extract}
use rust_base.Io.Pump.{
  EpollMessagePump, WatchMode, read_write, Added, Flags, Callback, can_read, can_write, dispatch,
}
use rust_base.Io.Pump
use rust_base.Io.Controller
use rust_base.Io.Controller.{
  FdWatchController, stop_watching_file_descriptor, watch_file_descriptor,
}
use rust_base.Net.{Errno, eagain, einprogress, Error, os, timed_out, Result, ok, err}

pub data ReadOp : Type 0 where
  read_if_ready : ℕ → ReadOp
  read : ℕ → ℕ → ReadOp  -- the length and the callback

pub record WriteOp : Type 0 where
  pub buf : List ℕ
  pub cb : ℕ

-- `fd` is none for INVALID_FD.
pub record SocketPosix : Type 0 where
  pub fd : Option ℕ
  pub read_watcher : FdWatchController
  pub write_watcher : FdWatchController
  pub pending_read : Option ReadOp
  pub pending_write : Option WriteOp
  pub pending_connect : Option ℕ
  pub pending_accept : Option ℕ
  pub connect_gen : ℕ
  pub read_gen : ℕ
  pub write_gen : ℕ

-- What a callback is called with.
pub data Outcome : Type 0 where
  connected : Result Unit → Outcome
  readable : Result Unit → Outcome
  received : Result (List ℕ) → Outcome
  written : Result ℕ → Outcome
  accepted : Result ℕ → Outcome

pub data Kind : Type 0 where
  connecting reading writing : Kind

-- A delayed task of `schedule_timeout`, and the callback of the operation that it was posted for.
pub record Timeout : Type 0 where
  pub kind : Kind
  pub my_gen : ℕ
  pub owner : ℕ

-- The socket and what is around it: the pump, the callbacks of the pump that are to be made, the
-- timeouts in the runner. `calls` are the callbacks made, the latest first, and `timeouts` those of them
-- that a timeout made, with its owner.
pub record World : Type 0 where
  pub socket : SocketPosix
  pub pump : EpollMessagePump
  pub due : List Callback
  pub timers : List Timeout
  pub next : ℕ
  pub calls : List (ℕ × Outcome)
  pub timeouts : List (ℕ × ℕ)

-- The answers of epoll_ctl to a registration.
pub record Ctl : Type 0 where
  pub added : Added
  pub modified : Bool

unfoldable pub new : SocketPosix
unfolding Controller.new
new = record {
  fd = none;
  read_watcher = Controller.new;
  write_watcher = Controller.new;
  pending_read = none;
  pending_write = none;
  pending_connect = none;
  pending_accept = none;
  connect_gen = 0;
  read_gen = 0;
  write_gen = 0;
}

unfoldable pub from_fd : ℕ → SocketPosix
unfolding new
from_fd fd = record new { fd = some fd }

unfoldable pub new_world : SocketPosix → EpollMessagePump → World
new_world s p = record {
  socket = s;
  pump = p;
  due = [];
  timers = [];
  next = 0;
  calls = [];
  timeouts = [];
}

unfoldable pub call : ℕ → Outcome → World → World
call c o w = record w { calls = (c, o) ∷ w.calls }

-- The socket is the only watcher of the pump, under the number 0. The answer of
-- `watch_file_descriptor` is not looked at.
abbrev pub read_armed : Bool × FdWatchController × EpollMessagePump → World → World
read_armed (b, c, p) w = record w { pump = p; socket = record w.socket { read_watcher = c } }

abbrev pub write_armed : Bool × FdWatchController × EpollMessagePump → World → World
write_armed (b, c, p) w = record w { pump = p; socket = record w.socket { write_watcher = c } }

unfoldable pub arm_read : ℕ → Ctl → World → World
unfolding watch_file_descriptor
arm_read fd ctl w =
    read_armed
      (watch_file_descriptor fd false Pump.read 0 ctl.added ctl.modified w.socket.read_watcher
        w.pump)
      w

unfoldable pub arm_write : ℕ → Ctl → World → World
unfolding watch_file_descriptor
arm_write fd ctl w =
    write_armed
      (watch_file_descriptor fd false Pump.write 0 ctl.added ctl.modified w.socket.write_watcher
        w.pump)
      w

unfoldable pub disarm_read : World → World
unfolding stop_watching_file_descriptor
disarm_read w = read_armed (stop_watching_file_descriptor w.socket.read_watcher w.pump) w

unfoldable pub disarm_write : World → World
unfolding stop_watching_file_descriptor
disarm_write w = write_armed (stop_watching_file_descriptor w.socket.write_watcher w.pump) w

-- `open`, by the answer of socket(2).
unfoldable pub open_fd : Result ℕ → World → World
open_fd (ok fd) w = record w { socket = record w.socket { fd = some fd } }
open_fd (err e) w = w
