-- ===== src/Net/Socket/Emptied.antt =====
-- What empties the slots of rust_net/socket_posix.rs leaves their generations.
use rust_base.Base.{ℕ, refl, Option, none, some, List, inr}
use rust_base.Net.{Result, ok, err}
use rust_base.Net.Socket.{
  ReadOp, read_if_ready, read, WriteOp, Kind, connecting, reading, writing, World, call,
  disarm_read, disarm_write, open_fd,
}
use rust_base.Net.Socket.Ops.{cancel_accept, cancel_read, cancel_write, close}
use rust_base.Net.Socket.Fire.{
  gen_of, expire, connect_timed_out, read_timed_out, write_timed_out, on_file_can_read,
  on_file_can_write, read_ready, write_ready,
}
use rust_base.Net.Socket.Slots.{Later}

module _ (w : World) where
  pub open_fd-Later : (r : Result ℕ) (j : Kind) → Later j w.socket (open_fd r w).socket
  unfolding open_fd gen_of
  open_fd-Later (ok fd) connecting = inr (refl, λ n h. h)
  open_fd-Later (ok fd) reading = inr (refl, λ n h. h)
  open_fd-Later (ok fd) writing = inr (refl, λ n h. h)
  open_fd-Later (err e) j = inr (refl, λ n h. h)

  pub cancel_accept-Later : (j : Kind) → Later j w.socket (cancel_accept w).socket
  unfolding cancel_accept disarm_read gen_of
  cancel_accept-Later connecting = inr (refl, λ n h. h)
  cancel_accept-Later reading = inr (refl, λ n h. h)
  cancel_accept-Later writing = inr (refl, λ n h. h)

  pub cancel_read-Later : (j : Kind) → Later j w.socket (cancel_read w).socket
  unfolding cancel_read disarm_read gen_of
  cancel_read-Later connecting = inr (refl, λ n h. h)
  cancel_read-Later reading = inr (refl, λ n h. tt)
  cancel_read-Later writing = inr (refl, λ n h. h)

  pub cancel_write-Later : (j : Kind) → Later j w.socket (cancel_write w).socket
  unfolding cancel_write disarm_write gen_of
  cancel_write-Later connecting = inr (refl, λ n h. h)
  cancel_write-Later reading = inr (refl, λ n h. h)
  cancel_write-Later writing = inr (refl, λ n h. tt)

  pub close-Later : (j : Kind) → Later j w.socket (close w).socket
  unfolding close disarm_read disarm_write gen_of
  close-Later connecting = inr (refl, λ n h. tt)
  close-Later reading = inr (refl, λ n h. tt)
  close-Later writing = inr (refl, λ n h. tt)

  connect_timed_out-Later :
      (owner : ℕ) (o : Option ℕ) (j : Kind) → Later j w.socket (connect_timed_out owner o w).socket
  unfolding connect_timed_out disarm_write gen_of
  connect_timed_out-Later owner none j = inr (refl, λ n h. h)
  connect_timed_out-Later owner (some c) connecting = inr (refl, λ n h. tt)
  connect_timed_out-Later owner (some c) reading = inr (refl, λ n h. h)
  connect_timed_out-Later owner (some c) writing = inr (refl, λ n h. h)

  read_timed_out-Later :
      (owner : ℕ) (o : Option ReadOp) (j : Kind)
      → Later j w.socket (read_timed_out owner o w).socket
  unfolding read_timed_out disarm_read gen_of
  read_timed_out-Later owner none j = inr (refl, λ n h. h)
  read_timed_out-Later owner (some (read_if_ready c)) connecting = inr (refl, λ n h. h)
  read_timed_out-Later owner (some (read_if_ready c)) reading = inr (refl, λ n h. tt)
  read_timed_out-Later owner (some (read_if_ready c)) writing = inr (refl, λ n h. h)
  read_timed_out-Later owner (some (read len c)) connecting = inr (refl, λ n h. h)
  read_timed_out-Later owner (some (read len c)) reading = inr (refl, λ n h. tt)
  read_timed_out-Later owner (some (read len c)) writing = inr (refl, λ n h. h)

  write_timed_out-Later :
      (owner : ℕ) (o : Option WriteOp) (j : Kind)
      → Later j w.socket (write_timed_out owner o w).socket
  unfolding write_timed_out disarm_write gen_of
  write_timed_out-Later owner none j = inr (refl, λ n h. h)
  write_timed_out-Later owner (some op) connecting = inr (refl, λ n h. h)
  write_timed_out-Later owner (some op) reading = inr (refl, λ n h. h)
  write_timed_out-Later owner (some op) writing = inr (refl, λ n h. tt)

  pub expire-Later : (k : Kind) (owner : ℕ) (j : Kind) → Later j w.socket (expire k owner w).socket
  unfolding expire
  expire-Later connecting owner = connect_timed_out-Later owner w.socket.pending_connect
  expire-Later reading owner = read_timed_out-Later owner w.socket.pending_read
  expire-Later writing owner = write_timed_out-Later owner w.socket.pending_write

  read_ready-Later :
      (r : Result (List ℕ)) (o : Option ReadOp) (j : Kind)
      → Later j w.socket (read_ready r o w).socket
  unfolding read_ready call gen_of
  read_ready-Later r none j = inr (refl, λ n h. h)
  read_ready-Later r (some (read_if_ready c)) connecting = inr (refl, λ n h. h)
  read_ready-Later r (some (read_if_ready c)) reading = inr (refl, λ n h. tt)
  read_ready-Later r (some (read_if_ready c)) writing = inr (refl, λ n h. h)
  read_ready-Later r (some (read len c)) connecting = inr (refl, λ n h. h)
  read_ready-Later r (some (read len c)) reading = inr (refl, λ n h. tt)
  read_ready-Later r (some (read len c)) writing = inr (refl, λ n h. h)

  pub on_file_can_read-Later :
      (a : Result ℕ) (r : Result (List ℕ)) (o : Option ℕ) (j : Kind)
      → Later j w.socket (on_file_can_read a r o w).socket
  unfolding on_file_can_read call gen_of
  on_file_can_read-Later a r none j = read_ready-Later r w.socket.pending_read j
  on_file_can_read-Later a r (some c) connecting = inr (refl, λ n h. h)
  on_file_can_read-Later a r (some c) reading = inr (refl, λ n h. h)
  on_file_can_read-Later a r (some c) writing = inr (refl, λ n h. h)

  write_ready-Later :
      (r : Result ℕ) (o : Option WriteOp) (j : Kind) → Later j w.socket (write_ready r o w).socket
  unfolding write_ready call gen_of
  write_ready-Later r none j = inr (refl, λ n h. h)
  write_ready-Later r (some op) connecting = inr (refl, λ n h. h)
  write_ready-Later r (some op) reading = inr (refl, λ n h. h)
  write_ready-Later r (some op) writing = inr (refl, λ n h. tt)

  pub on_file_can_write-Later :
      (a : Result Unit) (r : Result ℕ) (o : Option ℕ) (j : Kind)
      → Later j w.socket (on_file_can_write a r o w).socket
  unfolding on_file_can_write call gen_of
  on_file_can_write-Later a r none j = write_ready-Later r w.socket.pending_write j
  on_file_can_write-Later a r (some c) connecting = inr (refl, λ n h. tt)
  on_file_can_write-Later a r (some c) reading = inr (refl, λ n h. h)
  on_file_can_write-Later a r (some c) writing = inr (refl, λ n h. h)
