-- ===== src/Net/Socket/Fire.antt =====
-- What ends an operation of rust_net/socket_posix.rs that did not end at once: its timeout, or the
-- readiness of the descriptor.
use rust_base.Base.{ℕ, ◌==◌, Option, none, some, List, ◌∷◌, if◌then◌else◌}
use rust_base.Net.{timed_out, Result, ok, err}
use rust_base.Net.Socket.{
  ReadOp, read_if_ready, read, WriteOp, SocketPosix, Outcome, connected, readable, received,
  written, accepted, Kind, connecting, reading, writing, Timeout, World, call, disarm_read,
  disarm_write,
}

unfoldable pub gen_of : Kind → SocketPosix → ℕ
gen_of connecting s = s.connect_gen
gen_of reading s = s.read_gen
gen_of writing s = s.write_gen

-- The generation is the one that the operation is about to claim.
unfoldable pub schedule_timeout : Kind → ℕ → ℕ → World → World
schedule_timeout k my_gen c w = record w {
  timers = record { kind = k; my_gen = my_gen; owner = c } ∷ w.timers;
}

abbrev pub time_out : ℕ → ℕ → Outcome → World → World
time_out owner c o w = record w { calls = (c, o) ∷ w.calls; timeouts = (c, owner) ∷ w.timeouts }

unfoldable pub connect_timed_out : ℕ → Option ℕ → World → World
unfolding disarm_write
connect_timed_out owner none w = w
connect_timed_out owner (some c) w =
    time_out owner c (connected (err timed_out))
      (disarm_write (record w { socket = record w.socket { pending_connect = none } }))

unfoldable pub read_timed_out : ℕ → Option ReadOp → World → World
unfolding disarm_read
read_timed_out owner none w = w
read_timed_out owner (some (read_if_ready c)) w =
    time_out owner c (readable (err timed_out))
      (disarm_read (record w { socket = record w.socket { pending_read = none } }))
read_timed_out owner (some (read len c)) w =
    time_out owner c (received (err timed_out))
      (disarm_read (record w { socket = record w.socket { pending_read = none } }))

unfoldable pub write_timed_out : ℕ → Option WriteOp → World → World
unfolding disarm_write
write_timed_out owner none w = w
write_timed_out owner (some op) w =
    time_out owner op.cb (written (err timed_out))
      (disarm_write (record w { socket = record w.socket { pending_write = none } }))

unfoldable pub expire : Kind → ℕ → World → World
unfolding connect_timed_out read_timed_out write_timed_out
expire connecting owner w = connect_timed_out owner w.socket.pending_connect w
expire reading owner w = read_timed_out owner w.socket.pending_read w
expire writing owner w = write_timed_out owner w.socket.pending_write w

-- `fire_connect_timeout`, `fire_read_timeout` and `fire_write_timeout`.
unfoldable pub fire_timeout : Timeout → World → World
unfolding expire gen_of
fire_timeout t w = if gen_of t.kind w.socket == t.my_gen then expire t.kind t.owner w else w

unfoldable pub read_ready : Result (List ℕ) → Option ReadOp → World → World
unfolding call
read_ready r none w = w
read_ready r (some (read_if_ready c)) w =
    call c (readable (ok tt)) (record w { socket = record w.socket { pending_read = none } })
read_ready r (some (read len c)) w =
    call c (received r) (record w { socket = record w.socket { pending_read = none } })

-- With the answers that accept4(2) and read(2) would give.
unfoldable pub on_file_can_read : Result ℕ → Result (List ℕ) → Option ℕ → World → World
unfolding call read_ready
on_file_can_read a r (some c) w =
    call c (accepted a) (record w { socket = record w.socket { pending_accept = none } })
on_file_can_read a r none w = read_ready r w.socket.pending_read w

unfoldable pub write_ready : Result ℕ → Option WriteOp → World → World
unfolding call
write_ready r none w = w
write_ready r (some op) w =
    call op.cb (written r) (record w { socket = record w.socket { pending_write = none } })

-- With the answers of `check_connect_error` and write(2).
unfoldable pub on_file_can_write : Result Unit → Result ℕ → Option ℕ → World → World
unfolding call write_ready
on_file_can_write e r (some c) w =
    call c (connected e) (record w { socket = record w.socket { pending_connect = none } })
on_file_can_write e r none w = write_ready r w.socket.pending_write w
