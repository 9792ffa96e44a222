-- ===== src/Net/Socket/Newer.antt =====
-- Which operation of rust_net/socket_posix.rs a timeout ends.
use rust_base.Base.{
  ℕ, ◌≤◌, ◌≡◌, refl, false, Option, none, some, List, [], ◌∷◌, ◌==◌, arith, Bool-cases, inl, inr,
  All, All-map,
}
use rust_base.Pool.Schedule.{extract}
use rust_base.Pool.InRange.Step.{Extracted, extract-Extracted}
use rust_base.Io.Pump.{EpollMessagePump, Callback, can_read, can_write}
use rust_base.Net.{Result, ok, err}
use rust_base.Net.Socket.{
  ReadOp, read_if_ready, read, WriteOp, Kind, connecting, reading, writing, Timeout, World, call,
  disarm_read, disarm_write, open_fd, new_world, new,
}
use rust_base.Net.Socket.Ops.{
  connect, read_if_ready_op, read_op, write_op, cancel_accept, cancel_read, cancel_write, close,
}
use rust_base.Net.Socket.Fire.{
  gen_of, fire_timeout, expire, connect_timed_out, read_timed_out, write_timed_out,
  on_file_can_read, on_file_can_write, read_ready, write_ready,
}
use rust_base.Net.Socket.Events.{
  Answers, Event, opens, connects, reads_if_ready, reads, writes, accepts, cancels_accept,
  cancels_read, cancels_write, closes, expires, io, calls_back, expired, dispatched, called_back,
  step, run,
}
use rust_base.Net.Socket.Once.{Single, step-Single}
use rust_base.Net.Socket.Slots.{
  CallbackLe, ReadLe, WriteLe, SlotLe, Sound, Later-Sound, connect-Claims, read_if_ready-Claims,
  read-Claims, write-Claims,
}
use rust_base.Net.Socket.Emptied.{
  open_fd-Later, cancel_accept-Later, cancel_read-Later, cancel_write-Later, close-Later,
  expire-Later, on_file_can_read-Later, on_file_can_write-Later,
}
use rust_base.Net.Socket.Timeouts.{
  Inv, SameTimers, kept-Inv, connect-timers, read_if_ready-timers, read-timers, write-timers,
  started-Inv, accept-Inv,
}

-- A timeout that is not obsolete ends an operation that is no later than its own.
module _ (w : World) (k : Kind) (owner : ℕ) (h : All (λ p. p.0 ≤ p.1) w.timeouts) where
  connect_timed_out-Inv :
      (o : Option ℕ)
      → CallbackLe owner o
      → All (λ p. p.0 ≤ p.1) (connect_timed_out owner o w).timeouts
  unfolding connect_timed_out disarm_write
  connect_timed_out-Inv none l = h
  connect_timed_out-Inv (some c) l = (l, h)

  read_timed_out-Inv :
      (o : Option ReadOp)
      → ReadLe owner o
      → All (λ p. p.0 ≤ p.1) (read_timed_out owner o w).timeouts
  unfolding read_timed_out disarm_read
  read_timed_out-Inv none l = h
  read_timed_out-Inv (some (read_if_ready c)) l = (l, h)
  read_timed_out-Inv (some (read len c)) l = (l, h)

  write_timed_out-Inv :
      (o : Option WriteOp)
      → WriteLe owner o
      → All (λ p. p.0 ≤ p.1) (write_timed_out owner o w).timeouts
  unfolding write_timed_out disarm_write
  write_timed_out-Inv none l = h
  write_timed_out-Inv (some op) l = (l, h)

expire-timeouts :
    (k : Kind) (owner : ℕ) (w : World)
    → SlotLe k owner w.socket
    → All (λ p. p.0 ≤ p.1) w.timeouts
    → All (λ p. p.0 ≤ p.1) (expire k owner w).timeouts
unfolding expire
expire-timeouts connecting owner w l h =
    connect_timed_out-Inv w connecting owner h w.socket.pending_connect l
expire-timeouts reading owner w l h = read_timed_out-Inv w reading owner h w.socket.pending_read l
expire-timeouts writing owner w l h = write_timed_out-Inv w writing owner h w.socket.pending_write l

expire-timers : (k : Kind) (owner : ℕ) (w : World) → (expire k owner w).timers ≡ w.timers
unfolding expire connect_timed_out read_timed_out write_timed_out disarm_read disarm_write
expire-timers connecting owner w = go w.socket.pending_connect
  where
    go : (o : Option ℕ) → (connect_timed_out owner o w).timers ≡ w.timers
    go none = refl
    go (some c) = refl
expire-timers reading owner w = go w.socket.pending_read
  where
    go : (o : Option ReadOp) → (read_timed_out owner o w).timers ≡ w.timers
    go none = refl
    go (some (read_if_ready c)) = refl
    go (some (read len c)) = refl
expire-timers writing owner w = go w.socket.pending_write
  where
    go : (o : Option WriteOp) → (write_timed_out owner o w).timers ≡ w.timers
    go none = refl
    go (some op) = refl

fire_timeout-Inv : (t : Timeout) (w : World) → Sound w.socket t → Inv w → Inv (fire_timeout t w)
unfolding fire_timeout
fire_timeout-Inv t w s (h, k) = elim (Bool-cases (gen_of t.kind w.socket == t.my_gen)) [
  | inl e ↦ rw e (fired (ground (arith, e)) s)
  | inr e ↦ rw e (h, k)
]
  where
    fired : gen_of t.kind w.socket ≡ t.my_gen → Sound w.socket t → Inv (expire t.kind t.owner w)
    fired e (inl old) = absurd (omega (arith, old, e))
    fired e (inr l) = (
      rw (expire-timers t.kind t.owner w) (
          All-map (Sound w.socket) (Sound (expire t.kind t.owner w).socket)
            (λ u a.
              Later-Sound w.socket (expire t.kind t.owner w).socket u
                (expire-Later w t.kind t.owner u.kind) a)
            w.timers h),
      expire-timeouts t.kind t.owner w l.1 k,
    )

expired-Inv :
    (w : World) (o : Option (Timeout × List Timeout))
    → Extracted (Sound w.socket) o
    → Inv w
    → Inv (expired w o)
unfolding expired
expired-Inv w none x h = h
expired-Inv w (some (t, rest)) x h = fire_timeout-Inv t (record w { timers = rest }) x.0 (x.1, h.1)

on_file_can_read-timers :
    (a : Result ℕ) (r : Result (List ℕ)) (o : Option ℕ) (w : World)
    → SameTimers w (on_file_can_read a r o w)
unfolding on_file_can_read read_ready call
on_file_can_read-timers a r (some c) w = (refl, refl)
on_file_can_read-timers a r none w = go w.socket.pending_read
  where
    go : (o : Option ReadOp) → SameTimers w (read_ready r o w)
    go none = (refl, refl)
    go (some (read_if_ready c)) = (refl, refl)
    go (some (read len c)) = (refl, refl)

on_file_can_write-timers :
    (a : Result Unit) (r : Result ℕ) (o : Option ℕ) (w : World)
    → SameTimers w (on_file_can_write a r o w)
unfolding on_file_can_write write_ready call
on_file_can_write-timers a r (some c) w = (refl, refl)
on_file_can_write-timers a r none w = go w.socket.pending_write
  where
    go : (o : Option WriteOp) → SameTimers w (write_ready r o w)
    go none = (refl, refl)
    go (some op) = (refl, refl)

called_back-Inv :
    (a : Answers) (due : List Callback) (w : World) → Inv w → Inv (called_back a due w)
unfolding called_back
called_back-Inv a [] w h = h
called_back-Inv a (can_read watcher fd ∷ due) w h =
    let v = record w { due = due } in
    let o = w.socket.pending_accept in
    kept-Inv v (on_file_can_read a.accepting a.reading o v)
      (on_file_can_read-timers a.accepting a.reading o v)
      (on_file_can_read-Later v a.accepting a.reading o) h
called_back-Inv a (can_write watcher fd ∷ due) w h =
    let v = record w { due = due } in
    let o = w.socket.pending_connect in
    kept-Inv v (on_file_can_write a.connecting a.writing o v)
      (on_file_can_write-timers a.connecting a.writing o v)
      (on_file_can_write-Later v a.connecting a.writing o) h

open_fd-timers : (r : Result ℕ) (w : World) → SameTimers w (open_fd r w)
unfolding open_fd
open_fd-timers (ok fd) w = (refl, refl)
open_fd-timers (err e) w = (refl, refl)

step-Inv : (e : Event) (w : World) → ((i : ℕ) → Single i w) → Inv w → Inv (step e w)
unfolding step dispatched cancel_accept cancel_read cancel_write close disarm_read disarm_write
step-Inv (opens r) w s h = kept-Inv w (open_fd r w) (open_fd-timers r w) (open_fd-Later w r) h
step-Inv (connects timed ctl r) w s h =
    started-Inv w s connecting timed w.socket.fd (λ fd c. connect fd c ctl r)
      (λ fd c v. connect-timers v fd c ctl r) (λ fd c v. connect-Claims v fd c ctl r) h
step-Inv (reads_if_ready timed ctl) w s h =
    started-Inv w s reading timed w.socket.fd (λ fd c. read_if_ready_op fd c ctl)
      (λ fd c v. read_if_ready-timers v fd c ctl) (λ fd c v. read_if_ready-Claims v fd c ctl) h
step-Inv (reads timed len ctl r) w s h =
    started-Inv w s reading timed w.socket.fd (λ fd c. read_op fd c len ctl r)
      (λ fd c v. read-timers v fd c ctl len r) (λ fd c v. read-Claims v fd c ctl len r) h
step-Inv (writes timed buf ctl r) w s h =
    started-Inv w s writing timed w.socket.fd (λ fd c. write_op fd c buf ctl r)
      (λ fd c v. write-timers v fd c ctl buf r) (λ fd c v. write-Claims v fd c ctl buf r) h
step-Inv (accepts ctl r) w s h = accept-Inv w ctl r w.socket.fd h
step-Inv cancels_accept w s h = kept-Inv w (cancel_accept w) (refl, refl) (cancel_accept-Later w) h
step-Inv cancels_read w s h = kept-Inv w (cancel_read w) (refl, refl) (cancel_read-Later w) h
step-Inv cancels_write w s h = kept-Inv w (cancel_write w) (refl, refl) (cancel_write-Later w) h
step-Inv closes w s h = kept-Inv w (close w) (refl, refl) (close-Later w) h
step-Inv (expires n) w s h =
    expired-Inv w (extract n w.timers) (extract-Extracted (Sound w.socket) n w.timers h.0) h
step-Inv (io fd f alive) w s h = h
step-Inv (calls_back a) w s h = called_back-Inv a w.due w h

run-Inv : (es : List Event) (w : World) → ((i : ℕ) → Single i w) → Inv w → Inv (run es w)
unfolding run
run-Inv [] w s h = h
run-Inv (e ∷ es) w s h = run-Inv es (step e w) (λ i. step-Single i e w (s i)) (step-Inv e w s h)

-- A timeout that finds a newer operation in its slot leaves the world as it is, whatever timers are left.
abbrev pub Idle : World → Timeout → Type 0
Idle w t =
    ¬ SlotLe t.kind t.owner w.socket
    → (rest : List Timeout)
    → fire_timeout t (record w { timers = rest }) ≡ record w { timers = rest }

Sound-Idle : (w : World) (t : Timeout) → Sound w.socket t → Idle w t
unfolding fire_timeout
Sound-Idle w t (inl old) newer rest =
    let e : (gen_of t.kind w.socket == t.my_gen) ≡ false = ground (arith, old) in rw e refl
Sound-Idle w t (inr l) newer rest = absurd (newer l.1)

-- Whatever the order of calls, cancellations, timeouts and events of the pump, no timeout has ended an
-- operation that was started after its own; and each timer that is still to fire, if it fires while its
-- slot holds an operation that was started after its own, changes nothing.
pub run-newer :
    (es : List Event) (p : EpollMessagePump)
    → let w = run es (new_world new p) in All (λ c. c.0 ≤ c.1) w.timeouts × All (Idle w) w.timers
run-newer es p =
    let (timers, timeouts) =
      run-Inv es (new_world new p) (λ i. unfold new_world new in omega arith)
        (unfold new_world in (tt, tt)) in
    let w = run es (new_world new p) in
    (timeouts, All-map (Sound w.socket) (Idle w) (Sound-Idle w) w.timers timers)
