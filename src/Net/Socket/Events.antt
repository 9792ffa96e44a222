-- ===== src/Net/Socket/Events.antt =====
-- A socket of rust_net/socket_posix.rs under any order of calls, timeouts and events of the pump. A
-- method that needs an open socket panics without one, and then nothing else happens.
use rust_base.Base.{ℕ, ◌+◌, Bool, false, Option, none, some, List, [], ◌∷◌, ◌++◌, if◌then◌else◌}
use rust_base.Pool.Schedule.{extract}
use rust_base.Io.Pump.{EpollMessagePump, Flags, Callback, can_read, can_write, dispatch}
use rust_base.Net.{Result}
use rust_base.Net.Socket.{Kind, connecting, reading, writing, Timeout, World, Ctl, open_fd}
use rust_base.Net.Socket.Ops.{
  connect, read_if_ready_op, read_op, write_op, accept, cancel_accept, cancel_read, cancel_write,
  close,
}
use rust_base.Net.Socket.Fire.{
  schedule_timeout, gen_of, fire_timeout, on_file_can_read, on_file_can_write,
}

-- The answers of accept4, read, check_connect_error and write to a callback of the pump.
pub record Answers : Type 0 where
  pub accepting : Result ℕ
  pub reading : Result (List ℕ)
  pub connecting : Result Unit
  pub writing : Result ℕ

-- A Boolean tells the variant with a timeout.
pub data Event : Type 0 where
  opens : Result ℕ → Event
  connects : Bool → Ctl → Result Unit → Event
  reads_if_ready : Bool → Ctl → Event
  reads : Bool → ℕ → Ctl → Result (List ℕ) → Event
  writes : Bool → List ℕ → Ctl → Result ℕ → Event
  accepts : Ctl → Result ℕ → Event
  cancels_accept cancels_read cancels_write closes : Event
  expires : ℕ → Event  -- one of the timeouts in the runner
  io : ℕ → Flags → Bool → Event  -- an event of epoll, and whether the socket is alive
  calls_back : Answers → Event

unfoldable pub started : Kind → Bool → Option ℕ → (ℕ → ℕ → World → World) → World → World
unfolding schedule_timeout gen_of
started k timed none f w = w
started k timed (some fd) f w =
    let w' = f fd w.next (record w { next = w.next + 1 }) in
    if timed then schedule_timeout k (gen_of k w.socket + 1) w.next w' else w'

unfoldable pub expired : World → Option (Timeout × List Timeout) → World
unfolding fire_timeout
expired w none = w
expired w (some (t, rest)) = fire_timeout t (record w { timers = rest })

unfoldable pub dispatched : World → List Callback × EpollMessagePump → World
dispatched w (calls, p) = record w { pump = p; due = w.due ++ calls }

unfoldable pub called_back : Answers → List Callback → World → World
unfolding on_file_can_read on_file_can_write
called_back a [] w = w
called_back a (can_read watcher fd ∷ due) w =
    on_file_can_read a.accepting a.reading w.socket.pending_accept (record w { due = due })
called_back a (can_write watcher fd ∷ due) w =
    on_file_can_write a.connecting a.writing w.socket.pending_connect (record w { due = due })

unfoldable pub step : Event → World → World
unfolding open_fd started connect read_if_ready_op read_op write_op accept cancel_accept cancel_read
    cancel_write close expired dispatched dispatch called_back extract
step (opens r) w = open_fd r w
step (connects timed ctl r) w = started connecting timed w.socket.fd (λ fd c. connect fd c ctl r) w
step (reads_if_ready timed ctl) w =
    started reading timed w.socket.fd (λ fd c. read_if_ready_op fd c ctl) w
step (reads timed len ctl r) w =
    started reading timed w.socket.fd (λ fd c. read_op fd c len ctl r) w
step (writes timed buf ctl r) w =
    started writing timed w.socket.fd (λ fd c. write_op fd c buf ctl r) w
step (accepts ctl r) w = started reading false w.socket.fd (λ fd c. accept fd c ctl r) w
step cancels_accept w = cancel_accept w
step cancels_read w = cancel_read w
step cancels_write w = cancel_write w
step closes w = close w
step (expires n) w = expired w (extract n w.timers)
step (io fd f alive) w = dispatched w (dispatch fd f (λ i. alive) w.pump)
step (calls_back a) w = called_back a w.due w

unfoldable pub run : List Event → World → World
unfolding step
run [] w = w
run (e ∷ es) w = run es (step e w)
