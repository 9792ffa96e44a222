-- ===== src/Net/Socket/Duplex.antt =====
-- Two operations at a time on one socket of rust_net/socket_posix.rs.
use rust_base.Base.{
  ℕ, ◌+◌, ◌≡◌, ◌⊎◌, refl, Bool, true, false, none, some, List, [], ◌∷◌, ◌==◌, arith, Bool-cases,
  inl, inr, ◌||◌,
}
use rust_base.Io.Pump.{
  EpollMessagePump, Flags, can_write, callbacks, dispatch, watched, register_fd, is_registered,
  errored, write,
}
use rust_base.Io.Controller.{
  FdWatchController, stop_watching_file_descriptor, watch_file_descriptor, attached,
}
use rust_base.Net.{eagain, os, timed_out, ok, err}
use rust_base.Net.Socket.{
  read, received, reading, World, Ctl, arm_write, arm_read, call, disarm_read,
}
use rust_base.Net.Socket.Ops.{read_op, read_answered, write_op, write_answered}
use rust_base.Net.Socket.Fire.{schedule_timeout, gen_of, fire_timeout, expire, read_timed_out}

-- The watch that a write leaves on its descriptor.
watch_for_write :
    (fd watcher : ℕ) (ctl : Ctl) (c : FdWatchController) (p : EpollMessagePump)
    → is_registered ctl.added ctl.modified ≡ true
    → (g : ℕ) × ((watch_file_descriptor fd false write watcher ctl.added ctl.modified c p).2.watches
          fd
        ≡ some (record { watcher = watcher; persistent = false; mode = write; generation = g }))
unfolding watch_file_descriptor register_fd attached
watch_for_write fd watcher ctl c p r =
    ((stop_watching_file_descriptor c p).2.generation_counter, rw r (ground arith))

-- An event on a descriptor that a one-shot watch for writing holds.
write_event :
    (fd g : ℕ) (f : Flags) (alive : ℕ → Bool) (p : EpollMessagePump)
    → (fd == p.wake_fd) ≡ false
    → p.watches fd ≡ some (record { watcher = 0; persistent = false; mode = write; generation = g })
    → (((dispatch fd f alive p).0 ≡ []) ⊎ ((dispatch fd f alive p).0 ≡ can_write 0 fd ∷ []))
      × ((dispatch fd f alive p).1.watches fd ≡ none)
unfolding dispatch watched callbacks
write_event fd g f alive p n e =
    rw (n, e)
      (elim (Bool-cases (alive 0)) [
        | inr dead ↦ rw dead (inl refl, ground arith)
        | inl live ↦ rw live (elim (Bool-cases (f.epollout || errored f)) [
          | inl w ↦ (inr ground (arith, w), ground arith)
          | inr w ↦ (inl ground (arith, w), ground arith)
        ])
      ])

-- A read that waits is stranded when a write on the same socket has to wait too: the only watch of the
-- descriptor becomes one for writing. Whatever the next event on the descriptor is, the pump makes no
-- call for reading, and no watch is left, while the read is still pending.
pub write_op-strands_read :
    (fd c d len : ℕ) (buf : List ℕ) (ctl ctl' : Ctl) (f : Flags) (alive : ℕ → Bool) (w : World)
    → is_registered ctl'.added ctl'.modified ≡ true
    → let v = write_op fd d buf ctl' (err (os eagain)) (read_op fd c len ctl (err (os eagain)) w) in
      (fd == v.pump.wake_fd) ≡ false
      → (((dispatch fd f alive v.pump).0 ≡ [])
          ⊎ ((dispatch fd f alive v.pump).0 ≡ can_write 0 fd ∷ []))
        × ((dispatch fd f alive v.pump).1.watches fd ≡ none)
        × (v.socket.pending_read ≡ some (read len c))
unfolding write_op write_answered arm_write read_op read_answered arm_read
write_op-strands_read fd c d len buf ctl ctl' f alive w r n =
    let u = read_op fd c len ctl (err (os eagain)) w in
    let v = write_op fd d buf ctl' (err (os eagain)) u in
    let (g, e) = watch_for_write fd 0 ctl' u.socket.write_watcher u.pump r in
    let (calls, gone) = write_event fd g f alive v.pump n e in (calls, gone, refl)

-- The timeout of a read that ended at once ends an older read that waits in the slot.
pub fire_timeout-hits_older :
    (fd c c' len len' : ℕ) (bytes : List ℕ) (ctl : Ctl) (w : World)
    → w.socket.pending_read ≡ some (read len' c')
    → let g = gen_of reading w.socket + 1 in
      let v = schedule_timeout reading g c (read_op fd c len ctl (ok bytes) w) in
      (fire_timeout (record { kind = reading; my_gen = g; owner = c }) v).calls
      ≡ (c', received (err timed_out)) ∷ (c, received (ok bytes)) ∷ w.calls
unfolding fire_timeout expire read_timed_out disarm_read schedule_timeout read_op read_answered call
    gen_of
fire_timeout-hits_older fd c c' len len' bytes ctl w e = ground (arith, e)
