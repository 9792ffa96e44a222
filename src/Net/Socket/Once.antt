-- ===== src/Net/Socket/Once.antt =====
-- A callback of rust_net/socket_posix.rs is called once at most.
use rust_base.Base.{
  ℕ, ◌+◌, ◌≤◌, ◌≡◌, refl, Bool, true, false, Option, none, some, List, [], ◌∷◌, ltb, arith,
}
use rust_base.Pool.Schedule.{extract}
use rust_base.Io.Pump.{EpollMessagePump, Callback, can_read, can_write}
use rust_base.Net.{Result}
use rust_base.Net.Socket.{
  ReadOp, read_if_ready, read, WriteOp, Kind, connecting, reading, writing, Timeout, World, call,
  disarm_read, disarm_write, open_fd, new_world, new,
}
use rust_base.Net.Socket.Ops.{cancel_accept, cancel_read, cancel_write, close}
use rust_base.Net.Socket.Fire.{
  schedule_timeout, gen_of, fire_timeout, expire, connect_timed_out, read_timed_out,
  write_timed_out, on_file_can_read, on_file_can_write, read_ready, write_ready,
}
use rust_base.Net.Socket.Events.{
  Answers, Event, opens, connects, reads_if_ready, reads, writes, accepts, cancels_accept,
  cancels_read, cancels_write, closes, expires, io, calls_back, started, expired, dispatched,
  called_back, step, run,
}
use rust_base.Net.Socket.Uses.{
  one_if, uses, Adds, Keeps, connect-Adds, read_if_ready-Adds, read-Adds, write-Adds, accept-Adds,
  open_fd-Keeps, cancel_accept-Keeps, cancel_read-Keeps, cancel_write-Keeps, close-Keeps,
}

module _ (i : ℕ) (w : World) where
  connect_timed_out-Keeps :
      (owner : ℕ) (o : Option ℕ)
      → w.socket.pending_connect ≡ o
      → Keeps i w (connect_timed_out owner o w)
  unfolding connect_timed_out disarm_write
  connect_timed_out-Keeps owner none e = omega arith
  connect_timed_out-Keeps owner (some c) e = ground arith

  read_timed_out-Keeps :
      (owner : ℕ) (o : Option ReadOp)
      → w.socket.pending_read ≡ o
      → Keeps i w (read_timed_out owner o w)
  unfolding read_timed_out disarm_read
  read_timed_out-Keeps owner none e = omega arith
  read_timed_out-Keeps owner (some (read_if_ready c)) e = ground arith
  read_timed_out-Keeps owner (some (read len c)) e = ground arith

  write_timed_out-Keeps :
      (owner : ℕ) (o : Option WriteOp)
      → w.socket.pending_write ≡ o
      → Keeps i w (write_timed_out owner o w)
  unfolding write_timed_out disarm_write
  write_timed_out-Keeps owner none e = omega arith
  write_timed_out-Keeps owner (some op) e = ground arith

  expire-Keeps : (k : Kind) (owner : ℕ) → Keeps i w (expire k owner w)
  unfolding expire
  expire-Keeps connecting owner = connect_timed_out-Keeps owner w.socket.pending_connect refl
  expire-Keeps reading owner = read_timed_out-Keeps owner w.socket.pending_read refl
  expire-Keeps writing owner = write_timed_out-Keeps owner w.socket.pending_write refl

  fire_timeout-Keeps : (t : Timeout) → Keeps i w (fire_timeout t w)
  unfolding fire_timeout
  fire_timeout-Keeps t = ground (arith, expire-Keeps t.kind t.owner)

  read_ready-Keeps :
      (r : Result (List ℕ)) (o : Option ReadOp)
      → w.socket.pending_read ≡ o
      → Keeps i w (read_ready r o w)
  unfolding read_ready call
  read_ready-Keeps r none e = omega arith
  read_ready-Keeps r (some (read_if_ready c)) e = ground arith
  read_ready-Keeps r (some (read len c)) e = ground arith

  on_file_can_read-Keeps :
      (a : Result ℕ) (r : Result (List ℕ)) (o : Option ℕ)
      → w.socket.pending_accept ≡ o
      → Keeps i w (on_file_can_read a r o w)
  unfolding on_file_can_read call
  on_file_can_read-Keeps a r none e = read_ready-Keeps r w.socket.pending_read refl
  on_file_can_read-Keeps a r (some c) e = ground arith

  write_ready-Keeps :
      (r : Result ℕ) (o : Option WriteOp)
      → w.socket.pending_write ≡ o
      → Keeps i w (write_ready r o w)
  unfolding write_ready call
  write_ready-Keeps r none e = omega arith
  write_ready-Keeps r (some op) e = ground arith

  on_file_can_write-Keeps :
      (a : Result Unit) (r : Result ℕ) (o : Option ℕ)
      → w.socket.pending_connect ≡ o
      → Keeps i w (on_file_can_write a r o w)
  unfolding on_file_can_write call
  on_file_can_write-Keeps a r none e = write_ready-Keeps r w.socket.pending_write refl
  on_file_can_write-Keeps a r (some c) e = ground arith

-- A callback that was not given out yet is not used, and one that was is used once at most.
abbrev pub Single : ℕ → World → Type 0
Single i w = uses i w ≤ one_if (ltb i w.next)

Keeps-Single : (i : ℕ) (w w' : World) → Keeps i w w' → Single i w → Single i w'
Keeps-Single i w w' k s = rw k.1 (omega (arith, k.0))

Adds-Single :
    (i : ℕ) (w w' : World)
    → Single i w
    → Adds i w.next (record w { next = w.next + 1 }) w'
    → Single i w'
Adds-Single i w w' s b = rw b.1 (ground arith)

started-Single :
    (i : ℕ) (k : Kind) (timed : Bool) (o : Option ℕ) (f : ℕ → ℕ → World → World) (w : World)
    → ((fd c : ℕ) (v : World) → Adds i c v (f fd c v))
    → Single i w
    → Single i (started k timed o f w)
unfolding started schedule_timeout
started-Single i k timed none f w a s = s
started-Single i k true (some fd) f w a s =
    let b = a fd w.next (record w { next = w.next + 1 }) in
    started_timed (f fd w.next (record w { next = w.next + 1 })) b
  where
    started_timed :
        (w' : World)
        → Adds i w.next (record w { next = w.next + 1 }) w'
        → Single i (schedule_timeout k (gen_of k w.socket + 1) w.next w')
    started_timed w' b = Adds-Single i w w' s b
started-Single i k false (some fd) f w a s =
    let v = record w { next = w.next + 1 } in Adds-Single i w (f fd w.next v) s (a fd w.next v)

expired-Single :
    (i : ℕ) (w : World) (o : Option (Timeout × List Timeout)) → Single i w → Single i (expired w o)
unfolding expired
expired-Single i w none s = s
expired-Single i w (some (t, rest)) s =
    let v = record w { timers = rest } in
    Keeps-Single i w (fire_timeout t v) (fire_timeout-Keeps i v t) s

called_back-Single :
    (i : ℕ) (a : Answers) (w : World) (due : List Callback)
    → Single i w
    → Single i (called_back a due w)
unfolding called_back
called_back-Single i a w [] s = s
called_back-Single i a w (can_read watcher fd ∷ due) s =
    let v = record w { due = due } in
    let o = w.socket.pending_accept in
    Keeps-Single i w (on_file_can_read a.accepting a.reading o v)
      (on_file_can_read-Keeps i v a.accepting a.reading o refl) s
called_back-Single i a w (can_write watcher fd ∷ due) s =
    let v = record w { due = due } in
    let o = w.socket.pending_connect in
    Keeps-Single i w (on_file_can_write a.connecting a.writing o v)
      (on_file_can_write-Keeps i v a.connecting a.writing o refl) s

pub step-Single : (i : ℕ) (e : Event) (w : World) → Single i w → Single i (step e w)
unfolding step expired dispatched called_back
step-Single i (opens r) w s = Keeps-Single i w (open_fd r w) (open_fd-Keeps i w r) s
step-Single i (connects timed ctl r) w s =
    started-Single i connecting timed w.socket.fd _ w (λ fd c v. connect-Adds i v fd c ctl r) s
step-Single i (reads_if_ready timed ctl) w s =
    started-Single i reading timed w.socket.fd _ w (λ fd c v. read_if_ready-Adds i v fd c ctl) s
step-Single i (reads timed len ctl r) w s =
    started-Single i reading timed w.socket.fd _ w (λ fd c v. read-Adds i v fd c ctl len r) s
step-Single i (writes timed buf ctl r) w s =
    started-Single i writing timed w.socket.fd _ w (λ fd c v. write-Adds i v fd c ctl buf r) s
step-Single i (accepts ctl r) w s =
    started-Single i reading false w.socket.fd _ w (λ fd c v. accept-Adds i v fd c ctl r) s
step-Single i cancels_accept w s = Keeps-Single i w (cancel_accept w) (cancel_accept-Keeps i w) s
step-Single i cancels_read w s = Keeps-Single i w (cancel_read w) (cancel_read-Keeps i w) s
step-Single i cancels_write w s = Keeps-Single i w (cancel_write w) (cancel_write-Keeps i w) s
step-Single i closes w s = Keeps-Single i w (close w) (close-Keeps i w) s
step-Single i (expires n) w s = expired-Single i w (extract n w.timers) s
step-Single i (io fd f alive) w s = s
step-Single i (calls_back a) w s = called_back-Single i a w w.due s

pub run-Single : (i : ℕ) (es : List Event) (w : World) → Single i w → Single i (run es w)
unfolding run
run-Single i [] w s = s
run-Single i (e ∷ es) w s = run-Single i es (step e w) (step-Single i e w s)

-- Whatever the order of calls, cancellations, timeouts and events of the pump, each callback is called
-- once at most, and one that a slot of the socket still holds was not called.
pub run-called_once :
    (es : List Event) (i : ℕ) (p : EpollMessagePump) → uses i (run es (new_world new p)) ≤ 1
run-called_once es i p =
    let s = run-Single i es (new_world new p) (unfold new_world new in omega arith) in ground arith
