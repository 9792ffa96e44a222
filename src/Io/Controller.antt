-- ===== src/Io/Controller.antt =====
-- `FdWatchController` of rust_io/message_pump.rs, and `IoTaskRunner::watch_file_descriptor` of
-- rust_io/io_task_runner.rs, which binds it. The pump lives as long as its runner does.
use rust_base.Base.{ℕ, Bool, true, false, Option, none, some, if◌then◌else◌}
use rust_base.Io.Pump.{EpollMessagePump, WatchMode, Added, register_fd, unregister_fd}

-- The descriptor and the generation count only when the pump is there.
pub record FdWatchController : Type 0 where
  pub pump : Bool
  pub fd : ℕ
  pub generation : ℕ

unfoldable pub new : FdWatchController
new = record { pump = false; fd = 0; generation = 0 }

unfoldable pub attach : ℕ → ℕ → FdWatchController
attach fd generation = record { pump = true; fd = fd; generation = generation }

-- Also what the drop of a controller does.
unfoldable pub stop_watching_file_descriptor :
    FdWatchController → EpollMessagePump → Bool × FdWatchController × EpollMessagePump
unfolding unregister_fd
stop_watching_file_descriptor c p =
    if c.pump
    then (
      (unregister_fd c.fd c.generation p).0,
      record c { pump = false },
      (unregister_fd c.fd c.generation p).1,
    )
    else (false, c, p)

unfoldable pub is_watching : FdWatchController → Bool
is_watching c = c.pump

unfoldable pub attached :
    ℕ
    → FdWatchController
    → Option ℕ × EpollMessagePump
    → Bool × FdWatchController × EpollMessagePump
unfolding attach
attached fd c (none, p) = (false, c, p)
attached fd c (some generation, p) = (true, attach fd generation, p)

unfoldable pub watch_file_descriptor :
    ℕ
    → Bool
    → WatchMode
    → ℕ
    → Added
    → Bool
    → FdWatchController
    → EpollMessagePump
    → Bool × FdWatchController × EpollMessagePump
unfolding stop_watching_file_descriptor attached register_fd
watch_file_descriptor fd persistent mode watcher added modified c p =
    let (stopped, c', p') = stop_watching_file_descriptor c p in
    attached fd c' (register_fd fd persistent mode watcher added modified p')
