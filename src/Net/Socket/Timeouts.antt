-- ===== src/Net/Socket/Timeouts.antt =====
-- The timeouts of rust_net/socket_posix.rs when an operation starts.
use rust_base.Base.{
  ℕ, ◌+◌, ◌≤◌, ◌≡◌, refl, sym, Bool, true, false, Option, none, some, List, arith, inr, All,
  All-map,
}
use rust_base.Net.{eagain, einprogress, os, Result, err}
use rust_base.Net.Socket.{
  ReadOp, read_if_ready, read, WriteOp, Kind, connecting, reading, writing, World, Ctl, call,
  arm_read, arm_write,
}
use rust_base.Net.Socket.Ops.{
  connect, connect_answered, read_if_ready_op, read_op, read_answered, write_op, write_answered,
  accept,
}
use rust_base.Net.Socket.Fire.{schedule_timeout}
use rust_base.Net.Socket.Events.{started}
use rust_base.Net.Socket.Once.{Single}
use rust_base.Net.Socket.Slots.{
  CallbackLe, ReadLe, WriteLe, SlotLe, Sound, Later, Later-Sound, Claims, accept-Later,
}

-- The timeouts in the runner are sound, and those that ended an operation were no older than it.
abbrev pub Inv : World → Type 0
Inv w = All (Sound w.socket) w.timers × All (λ p. p.0 ≤ p.1) w.timeouts

-- Those two lists stay.
abbrev pub SameTimers : World → World → Type 0
SameTimers w w' = (w'.timers ≡ w.timers) × (w'.timeouts ≡ w.timeouts)

pub kept-Inv :
    (w w' : World) → SameTimers w w' → ((j : Kind) → Later j w.socket w'.socket) → Inv w → Inv w'
kept-Inv w w' e l (h, k) =
    rw (e.0, e.1)
      (
        All-map (Sound w.socket) (Sound w'.socket)
            (λ t a. Later-Sound w.socket w'.socket t (l t.kind) a) w.timers h,
        k,
      )

module _ (w : World) (fd c : ℕ) (ctl : Ctl) where
  pub connect-timers : (r : Result Unit) → SameTimers w (connect fd c ctl r w)
  unfolding connect connect_answered call arm_write
  connect-timers (err (os einprogress)) = (refl, refl)
  connect-timers _ = (refl, refl)

  pub read_if_ready-timers : SameTimers w (read_if_ready_op fd c ctl w)
  unfolding read_if_ready_op arm_read
  read_if_ready-timers = (refl, refl)

  pub read-timers : (len : ℕ) (r : Result (List ℕ)) → SameTimers w (read_op fd c len ctl r w)
  unfolding read_op read_answered call arm_read
  read-timers len (err (os eagain)) = (refl, refl)
  read-timers len _ = (refl, refl)

  pub write-timers : (buf : List ℕ) (r : Result ℕ) → SameTimers w (write_op fd c buf ctl r w)
  unfolding write_op write_answered call arm_write
  write-timers buf (err (os eagain)) = (refl, refl)
  write-timers buf _ = (refl, refl)

  pub accept-timers : (r : Result ℕ) → SameTimers w (accept fd c ctl r w)
  unfolding accept call arm_read
  accept-timers (err (os eagain)) = (refl, refl)
  accept-timers _ = (refl, refl)

-- No slot holds a callback that was not given out yet.
module _ (w : World) (s : (i : ℕ) → Single i w) where
  given_out-CallbackLe : (o : Option ℕ) → w.socket.pending_connect ≡ o → CallbackLe w.next o
  given_out-CallbackLe none e = tt
  given_out-CallbackLe (some c) e = ground (arith, s c)

  given_out-ReadLe : (o : Option ReadOp) → w.socket.pending_read ≡ o → ReadLe w.next o
  given_out-ReadLe none e = tt
  given_out-ReadLe (some (read_if_ready c)) e = ground (arith, s c)
  given_out-ReadLe (some (read len c)) e = ground (arith, s c)

  given_out-WriteLe : (o : Option WriteOp) → w.socket.pending_write ≡ o → WriteLe w.next o
  given_out-WriteLe none e = tt
  given_out-WriteLe (some op) e = ground (arith, s op.cb)

  given_out-SlotLe : (k : Kind) → SlotLe k w.next w.socket
  given_out-SlotLe connecting = given_out-CallbackLe w.socket.pending_connect refl
  given_out-SlotLe reading = given_out-ReadLe w.socket.pending_read refl
  given_out-SlotLe writing = given_out-WriteLe w.socket.pending_write refl

  pub started-Inv :
      (k : Kind) (timed : Bool) (o : Option ℕ) (f : ℕ → ℕ → World → World)
      → ((fd c : ℕ) (v : World) → SameTimers v (f fd c v))
      → ((fd c : ℕ) (v : World) → Claims k c v.socket (f fd c v).socket)
      → Inv w
      → Inv (started k timed o f w)
  unfolding started schedule_timeout
  started-Inv k timed none f e a h = h
  started-Inv k false (some fd) f e a h =
      let v = record w { next = w.next + 1 } in
      kept-Inv w (f fd w.next v) (e fd w.next v) (a fd w.next v).2 h
  started-Inv k true (some fd) f e a h =
      let v = record w { next = w.next + 1 } in
      let b = a fd w.next v in
      let rest = kept-Inv w (f fd w.next v) (e fd w.next v) b.2 h in
      ((inr (sym b.0, b.1 (given_out-SlotLe k)), rest.0), rest.1)

pub accept-Inv :
    (w : World) (ctl : Ctl) (r : Result ℕ) (o : Option ℕ)
    → Inv w
    → Inv (started reading false o (λ fd c. accept fd c ctl r) w)
unfolding started
accept-Inv w ctl r none h = h
accept-Inv w ctl r (some fd) h =
    let v = record w { next = w.next + 1 } in
    kept-Inv w (accept fd w.next ctl r v) (accept-timers v fd w.next ctl r)
      (accept-Later v fd w.next ctl r) h
