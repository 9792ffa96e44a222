-- ===== src/Net/Socket/Ops.antt =====
-- The operations of `SocketPosix` of rust_net/socket_posix.rs, with the descriptor, the callback and
-- the answers of the system calls.
use rust_base.Base.{ℕ, ◌+◌, none, some, List}
use rust_base.Net.{eagain, einprogress, os, Result, err}
use rust_base.Net.Socket.{
  read_if_ready, read, connected, received, written, accepted, World, Ctl, call, arm_read,
  arm_write, disarm_read, disarm_write,
}

unfoldable pub connect_answered : ℕ → ℕ → Ctl → Result Unit → World → World
unfolding call arm_write
connect_answered fd c ctl (err (os einprogress)) w =
    arm_write fd ctl (record w { socket = record w.socket { pending_connect = some c } })
connect_answered fd c ctl r w = call c (connected r) w

unfoldable pub connect : ℕ → ℕ → Ctl → Result Unit → World → World
unfolding connect_answered
connect fd c ctl r w =
    connect_answered fd c ctl r
      (record w { socket = record w.socket { connect_gen = w.socket.connect_gen + 1 } })

unfoldable pub read_if_ready_op : ℕ → ℕ → Ctl → World → World
unfolding arm_read
read_if_ready_op fd c ctl w = arm_read fd ctl (record w {
  socket = record w.socket {
    read_gen = w.socket.read_gen + 1;
    pending_read = some (read_if_ready c);
  };
})

unfoldable pub read_answered : ℕ → ℕ → ℕ → Ctl → Result (List ℕ) → World → World
unfolding call arm_read
read_answered fd c len ctl (err (os eagain)) w =
    arm_read fd ctl (record w { socket = record w.socket { pending_read = some (read len c) } })
read_answered fd c len ctl r w = call c (received r) w

unfoldable pub read_op : ℕ → ℕ → ℕ → Ctl → Result (List ℕ) → World → World
unfolding read_answered
read_op fd c len ctl r w =
    read_answered fd c len ctl r
      (record w { socket = record w.socket { read_gen = w.socket.read_gen + 1 } })

unfoldable pub write_answered : ℕ → ℕ → List ℕ → Ctl → Result ℕ → World → World
unfolding call arm_write
write_answered fd c buf ctl (err (os eagain)) w =
    arm_write fd ctl (record w {
      socket = record w.socket { pending_write = some (record { buf = buf; cb = c }) };
    })
write_answered fd c buf ctl r w = call c (written r) w

unfoldable pub write_op : ℕ → ℕ → List ℕ → Ctl → Result ℕ → World → World
unfolding write_answered
write_op fd c buf ctl r w =
    write_answered fd c buf ctl r
      (record w { socket = record w.socket { write_gen = w.socket.write_gen + 1 } })

unfoldable pub accept : ℕ → ℕ → Ctl → Result ℕ → World → World
unfolding call arm_read
accept fd c ctl (err (os eagain)) w =
    arm_read fd ctl (record w { socket = record w.socket { pending_accept = some c } })
accept fd c ctl r w = call c (accepted r) w

unfoldable pub cancel_accept : World → World
unfolding disarm_read
cancel_accept w = disarm_read (record w { socket = record w.socket { pending_accept = none } })

unfoldable pub cancel_read : World → World
unfolding disarm_read
cancel_read w = disarm_read (record w { socket = record w.socket { pending_read = none } })

unfoldable pub cancel_write : World → World
unfolding disarm_write
cancel_write w = disarm_write (record w { socket = record w.socket { pending_write = none } })

unfoldable pub close : World → World
unfolding disarm_read disarm_write
close w =
    let w' = disarm_write (disarm_read w) in
    record w' {
      socket = record w'.socket {
        pending_read = none;
        pending_write = none;
        pending_connect = none;
        pending_accept = none;
        fd = none;
      };
    }
