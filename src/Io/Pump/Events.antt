-- ===== src/Io/Pump/Events.antt =====
-- The pump of rust_io/epoll_pump.rs under any order of registrations, cancellations and events.
use rust_base.Base.{ℕ, Bool, List, [], ◌∷◌}
use rust_base.Io.Pump.{
  EpollMessagePump, WatchMode, Added, Flags, register_fd, unregister_fd, dispatch, schedule_work,
  set_quit,
}

pub data Event : Type 0 where
  register : ℕ → Bool → WatchMode → ℕ → Added → Bool → Event
  unregister : ℕ → ℕ → Event
  event : ℕ → Flags → (ℕ → Bool) → Event
  signal quits : Event

unfoldable pub step : Event → EpollMessagePump → EpollMessagePump
unfolding register_fd unregister_fd dispatch schedule_work set_quit
step (register fd persistent mode watcher added modified) p =
    (register_fd fd persistent mode watcher added modified p).1
step (unregister fd g) p = (unregister_fd fd g p).1
step (event fd f alive) p = (dispatch fd f alive p).1
step signal p = schedule_work p
step quits p = set_quit p

unfoldable pub run : List Event → EpollMessagePump → EpollMessagePump
unfolding step
run [] p = p
run (e ∷ es) p = run es (step e p)
