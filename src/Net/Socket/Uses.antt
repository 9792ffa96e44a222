-- ===== src/Net/Socket/Uses.antt =====
-- How often a callback of rust_net/socket_posix.rs is used, and what the operations add to that.
use rust_base.Base.{
  ℕ, ◌+◌, ◌≤◌, ◌≡◌, Bool, true, false, Option, none, some, List, [], ◌∷◌, ◌==◌, arith,
}
use rust_base.Net.{eagain, einprogress, other, os, timed_out, Result, ok, err}
use rust_base.Net.Socket.{
  ReadOp, read_if_ready, read, WriteOp, SocketPosix, Outcome, World, Ctl, call, arm_read, arm_write,
  disarm_read, disarm_write, open_fd,
}
use rust_base.Net.Socket.Ops.{
  connect, connect_answered, read_if_ready_op, read_op, read_answered, write_op, write_answered,
  accept, cancel_accept, cancel_read, cancel_write, close,
}

abbrev pub one_if : Bool → ℕ
one_if true = 1
one_if false = 0

abbrev pub calls_of : ℕ → List (ℕ × Outcome) → ℕ
calls_of i [] = 0
calls_of i (p ∷ ps) = one_if (p.0 == i) + calls_of i ps

abbrev pub is_callback : ℕ → Option ℕ → ℕ
is_callback i none = 0
is_callback i (some c) = one_if (c == i)

abbrev pub is_read : ℕ → Option ReadOp → ℕ
is_read i none = 0
is_read i (some (read_if_ready c)) = one_if (c == i)
is_read i (some (read len c)) = one_if (c == i)

abbrev pub is_write : ℕ → Option WriteOp → ℕ
is_write i none = 0
is_write i (some op) = one_if (op.cb == i)

abbrev pub held : ℕ → SocketPosix → ℕ
held i s =
    is_read i s.pending_read
    + is_write i s.pending_write
    + is_callback i s.pending_connect
    + is_callback i s.pending_accept

-- How often a callback was called or is held in a slot.
abbrev pub uses : ℕ → World → ℕ
uses i w = calls_of i w.calls + held i w.socket

abbrev pub Adds : ℕ → ℕ → World → World → Type 0
Adds i c w w' = (uses i w' ≤ uses i w + one_if (c == i)) × (w'.next ≡ w.next)

abbrev pub Keeps : ℕ → World → World → Type 0
Keeps i w w' = (uses i w' ≤ uses i w) × (w'.next ≡ w.next)

module _ (i : ℕ) (w : World) (fd c : ℕ) (ctl : Ctl) where
  pub connect-Adds : (r : Result Unit) → Adds i c w (connect fd c ctl r w)
  unfolding connect connect_answered call arm_write
  connect-Adds (ok x) = omega arith
  connect-Adds (err timed_out) = omega arith
  connect-Adds (err (os eagain)) = omega arith
  connect-Adds (err (os einprogress)) = omega arith
  connect-Adds (err (os (other n))) = omega arith

  pub read_if_ready-Adds : Adds i c w (read_if_ready_op fd c ctl w)
  unfolding read_if_ready_op arm_read
  read_if_ready-Adds = omega arith

  pub read-Adds : (len : ℕ) (r : Result (List ℕ)) → Adds i c w (read_op fd c len ctl r w)
  unfolding read_op read_answered call arm_read
  read-Adds len (ok x) = omega arith
  read-Adds len (err timed_out) = omega arith
  read-Adds len (err (os eagain)) = omega arith
  read-Adds len (err (os einprogress)) = omega arith
  read-Adds len (err (os (other n))) = omega arith

  pub write-Adds : (buf : List ℕ) (r : Result ℕ) → Adds i c w (write_op fd c buf ctl r w)
  unfolding write_op write_answered call arm_write
  write-Adds buf (ok x) = omega arith
  write-Adds buf (err timed_out) = omega arith
  write-Adds buf (err (os eagain)) = omega arith
  write-Adds buf (err (os einprogress)) = omega arith
  write-Adds buf (err (os (other n))) = omega arith

  pub accept-Adds : (r : Result ℕ) → Adds i c w (accept fd c ctl r w)
  unfolding accept call arm_read
  accept-Adds (ok x) = omega arith
  accept-Adds (err timed_out) = omega arith
  accept-Adds (err (os eagain)) = omega arith
  accept-Adds (err (os einprogress)) = omega arith
  accept-Adds (err (os (other n))) = omega arith

module _ (i : ℕ) (w : World) where
  pub open_fd-Keeps : (r : Result ℕ) → Keeps i w (open_fd r w)
  unfolding open_fd
  open_fd-Keeps (ok fd) = omega arith
  open_fd-Keeps (err e) = omega arith

  pub cancel_accept-Keeps : Keeps i w (cancel_accept w)
  unfolding cancel_accept disarm_read
  cancel_accept-Keeps = omega arith

  pub cancel_read-Keeps : Keeps i w (cancel_read w)
  unfolding cancel_read disarm_read
  cancel_read-Keeps = omega arith

  pub cancel_write-Keeps : Keeps i w (cancel_write w)
  unfolding cancel_write disarm_write
  cancel_write-Keeps = omega arith

  pub close-Keeps : Keeps i w (close w)
  unfolding close disarm_read disarm_write
  close-Keeps = omega arith
