-- ===== src/Net/Socket/Slots.antt =====
-- What the operations of rust_net/socket_posix.rs make of the slots and their generations.
use rust_base.Base.{ℕ, ◌+◌, ◌≤◌, ◌<◌, ◌≡◌, refl, ◌⊎◌, Option, none, some, List, arith, inl, inr}
use rust_base.Net.{eagain, einprogress, os, Result, err}
use rust_base.Net.Socket.{
  ReadOp, read_if_ready, read, WriteOp, SocketPosix, Kind, connecting, reading, writing, Timeout,
  World, Ctl, call, arm_read, arm_write,
}
use rust_base.Net.Socket.Ops.{
  connect, connect_answered, read_if_ready_op, read_op, read_answered, write_op, write_answered,
  accept,
}
use rust_base.Net.Socket.Fire.{gen_of}

abbrev pub CallbackLe : ℕ → Option ℕ → Type 0
CallbackLe n none = Unit
CallbackLe n (some c) = c ≤ n

abbrev pub ReadLe : ℕ → Option ReadOp → Type 0
ReadLe n none = Unit
ReadLe n (some (read_if_ready c)) = c ≤ n
ReadLe n (some (read len c)) = c ≤ n

abbrev pub WriteLe : ℕ → Option WriteOp → Type 0
WriteLe n none = Unit
WriteLe n (some op) = op.cb ≤ n

-- The callback in the slot, if any, is no later than that one.
abbrev pub SlotLe : Kind → ℕ → SocketPosix → Type 0
SlotLe connecting n s = CallbackLe n s.pending_connect
SlotLe reading n s = ReadLe n s.pending_read
SlotLe writing n s = WriteLe n s.pending_write

-- A timeout is obsolete, or what its slot holds is no later than its own operation.
abbrev pub Sound : SocketPosix → Timeout → Type 0
Sound s t = (t.my_gen < gen_of t.kind s) ⊎ ((t.my_gen ≡ gen_of t.kind s) × SlotLe t.kind t.owner s)

-- What an operation does to a slot: a new generation, or the slot stays or is emptied.
abbrev pub Later : Kind → SocketPosix → SocketPosix → Type 0
Later k s s' =
    (gen_of k s < gen_of k s')
    ⊎ ((gen_of k s ≡ gen_of k s') × ((n : ℕ) → SlotLe k n s → SlotLe k n s'))

pub Later-Sound : (s s' : SocketPosix) (t : Timeout) → Later t.kind s s' → Sound s t → Sound s' t
Later-Sound s s' t (inl l) (inl h) = inl (omega arith)
Later-Sound s s' t (inl l) (inr h) = inl (omega (arith, h.0))
Later-Sound s s' t (inr l) (inl h) = inl (omega (arith, l.0))
Later-Sound s s' t (inr l) (inr h) = inr (omega (arith, l.0, h.0), l.1 t.owner h.1)

-- What an operation makes of its own slot, with its callback.
abbrev pub Claims : Kind → ℕ → SocketPosix → SocketPosix → Type 0
Claims k c s s' =
    (gen_of k s' ≡ gen_of k s + 1) × (SlotLe k c s → SlotLe k c s') × ((j : Kind) → Later j s s')

module _ (s s' : SocketPosix) where
  connecting-Later :
      s.connect_gen < s'.connect_gen
      → Later reading s s'
      → Later writing s s'
      → (j : Kind) → Later j s s'
  unfolding gen_of
  connecting-Later l a b connecting = inl l
  connecting-Later l a b reading = a
  connecting-Later l a b writing = b

  reading-Later :
      s.read_gen < s'.read_gen
      → Later connecting s s'
      → Later writing s s'
      → (j : Kind) → Later j s s'
  unfolding gen_of
  reading-Later l a b connecting = a
  reading-Later l a b reading = inl l
  reading-Later l a b writing = b

  writing-Later :
      s.write_gen < s'.write_gen
      → Later connecting s s'
      → Later reading s s'
      → (j : Kind) → Later j s s'
  unfolding gen_of
  writing-Later l a b connecting = a
  writing-Later l a b reading = b
  writing-Later l a b writing = inl l

module _ (w : World) (fd c : ℕ) (ctl : Ctl) where
  pub connect-Claims :
      (r : Result Unit) → Claims connecting c w.socket (connect fd c ctl r w).socket
  unfolding connect connect_answered call arm_write gen_of
  connect-Claims (err (os einprogress)) = (
    refl,
    λ h. omega arith,
    connecting-Later w.socket (connect fd c ctl (err (os einprogress)) w).socket (omega arith)
        (inr (refl, λ n h. h)) (inr (refl, λ n h. h)),
  )
  connect-Claims _ = (
    refl,
    λ h. h,
    connecting-Later w.socket (record w.socket { connect_gen = w.socket.connect_gen + 1 })
        (omega arith) (inr (refl, λ n h. h)) (inr (refl, λ n h. h)),
  )

  pub read_if_ready-Claims : Claims reading c w.socket (read_if_ready_op fd c ctl w).socket
  unfolding read_if_ready_op arm_read gen_of
  read_if_ready-Claims = (
    refl,
    λ h. omega arith,
    reading-Later w.socket (read_if_ready_op fd c ctl w).socket (omega arith) (inr (refl, λ n h. h))
        (inr (refl, λ n h. h)),
  )

  pub read-Claims :
      (len : ℕ) (r : Result (List ℕ)) → Claims reading c w.socket (read_op fd c len ctl r w).socket
  unfolding read_op read_answered call arm_read gen_of
  read-Claims len (err (os eagain)) = (
    refl,
    λ h. omega arith,
    reading-Later w.socket (read_op fd c len ctl (err (os eagain)) w).socket (omega arith)
        (inr (refl, λ n h. h)) (inr (refl, λ n h. h)),
  )
  read-Claims len _ = (
    refl,
    λ h. h,
    reading-Later w.socket (record w.socket { read_gen = w.socket.read_gen + 1 }) (omega arith)
        (inr (refl, λ n h. h)) (inr (refl, λ n h. h)),
  )

  pub write-Claims :
      (buf : List ℕ) (r : Result ℕ) → Claims writing c w.socket (write_op fd c buf ctl r w).socket
  unfolding write_op write_answered call arm_write gen_of
  write-Claims buf (err (os eagain)) = (
    refl,
    λ h. omega arith,
    writing-Later w.socket (write_op fd c buf ctl (err (os eagain)) w).socket (omega arith)
        (inr (refl, λ n h. h)) (inr (refl, λ n h. h)),
  )
  write-Claims buf _ = (
    refl,
    λ h. h,
    writing-Later w.socket (record w.socket { write_gen = w.socket.write_gen + 1 }) (omega arith)
        (inr (refl, λ n h. h)) (inr (refl, λ n h. h)),
  )

  -- `accept` has no slot with a generation.
  pub accept-Later : (r : Result ℕ) (j : Kind) → Later j w.socket (accept fd c ctl r w).socket
  unfolding accept call arm_read gen_of
  accept-Later (err (os eagain)) connecting = inr (refl, λ n h. h)
  accept-Later (err (os eagain)) reading = inr (refl, λ n h. h)
  accept-Later (err (os eagain)) writing = inr (refl, λ n h. h)
  accept-Later _ j = inr (refl, λ n h. h)
