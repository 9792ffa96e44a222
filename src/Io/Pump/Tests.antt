-- ===== src/Io/Pump/Tests.antt =====
-- Runs of the pump of rust_io/epoll_pump.rs.
use rust_base.Base.{ℕ, ◌<◌, ◌≡◌, refl, true, false, List, [], ◌∷◌, arith}
use native.Mathlib.Decide.{ℕ_discrete}
use rust_base.Io.Pump.{
  EpollMessagePump, Flags, read, write, exists, ok, new, register_fd, unregister_fd, dispatch,
  can_read,
}
use rust_base.Io.Pump.Events.{Event, event, signal, run}
use rust_base.Io.Pump.Stale.{run-stale}

abbrev readable : Flags
readable = record { epollin = true; epollout = false; epollerr = false; epollhup = false }

-- A pump that watches the descriptor 5 for the watcher 1.
abbrev one_watch : EpollMessagePump
one_watch = (register_fd 5 true read 1 ok true (new 9)).1

one_watch_counts : 0 < one_watch.generation_counter
unfolding register_fd new
one_watch_counts = omega arith

one_watch_calls : (dispatch 5 readable (λ i. true) one_watch).0 ≡ can_read 1 5 ∷ []
unfolding dispatch register_fd new ℕ_discrete
one_watch_calls = refl

abbrev later_events : List Event
later_events = signal ∷ event 6 readable (λ i. true) ∷ []

run-stale_example :
    let q = run later_events (register_fd 5 false write 2 exists true one_watch).1 in
    unregister_fd 5 0 q ≡ (false, q)
run-stale_example =
    run-stale later_events 5 0 2 false true write exists one_watch one_watch_counts refl

abbrev one_ms : ℕ
one_ms = 1
