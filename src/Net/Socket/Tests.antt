-- ===== src/Net/Socket/Tests.antt =====
-- Runs of a socket of rust_net/socket_posix.rs.
use rust_base.Base.{◌+◌, ◌≤◌, ◌≡◌, ◌⊎◌, refl, true, false, none, some, List, [], ◌∷◌, All}
use rust_base.Io.Pump
use rust_base.Io.Pump.{Flags, can_write, dispatch}
use rust_base.Net.{eagain, os, timed_out, ok, err}
use rust_base.Net.Socket.{read, received, reading, World, Ctl, new, from_fd, new_world}
use rust_base.Net.Socket.Ops.{read_op, write_op}
use rust_base.Net.Socket.Fire.{schedule_timeout, gen_of, fire_timeout}
use rust_base.Net.Socket.Events.{Event, opens, reads, cancels_read, expires, run}
use rust_base.Net.Socket.Uses.{uses}
use rust_base.Net.Socket.Once.{run-called_once}
use rust_base.Net.Socket.Newer.{Idle, run-newer}
use rust_base.Net.Socket.Duplex.{write_op-strands_read, fire_timeout-hits_older}

abbrev added : Ctl
added = record { added = Pump.ok; modified = true }

abbrev replaced : Ctl
replaced = record { added = Pump.exists; modified = true }

-- A read with a timeout that waits, is cancelled and replaced by another; then the first times out.
abbrev two_reads : List Event
two_reads =
    opens (ok 5)
    ∷ reads true 8 added (err (os eagain))
    ∷ cancels_read
    ∷ reads true 8 added (err (os eagain))
    ∷ expires 1
    ∷ []

two_reads_kept : (run two_reads (new_world new (Pump.new 9))).socket.pending_read ≡ some (read 8 1)
unfolding run new_world new Pump.new
two_reads_kept = refl

run-called_once_example : uses 1 (run two_reads (new_world new (Pump.new 9))) ≤ 1
run-called_once_example = run-called_once two_reads 1 (Pump.new 9)

run-newer_example :
    let w = run two_reads (new_world new (Pump.new 9)) in
    All (λ c. c.0 ≤ c.1) w.timeouts × All (Idle w) w.timers
run-newer_example = run-newer two_reads (Pump.new 9)

abbrev readable : Flags
readable = record { epollin = true; epollout = false; epollerr = false; epollhup = false }

abbrev open_world : World
open_world = new_world (from_fd 5) (Pump.new 9)

write_op-strands_read_example :
    let v =
      write_op 5 1
        (3 ∷ [])
        replaced
        (err (os eagain))
        (read_op 5 0 8 added (err (os eagain)) open_world) in
    (((dispatch 5 readable (λ i. true) v.pump).0 ≡ [])
      ⊎ ((dispatch 5 readable (λ i. true) v.pump).0 ≡ can_write 0 5 ∷ []))
    × ((dispatch 5 readable (λ i. true) v.pump).1.watches 5 ≡ none)
    × (v.socket.pending_read ≡ some (read 8 0))
write_op-strands_read_example =
    write_op-strands_read 5 0 1 8 (3 ∷ []) added replaced readable (λ i. true) open_world refl
      (unfold write_op read_op new_world from_fd Pump.new in refl)

abbrev waiting_read : World
waiting_read = read_op 5 0 8 added (err (os eagain)) open_world

fire_timeout-hits_older_example :
    let g = gen_of reading waiting_read.socket + 1 in
    let v = schedule_timeout reading g 1 (read_op 5 1 8 added (ok (6 ∷ [])) waiting_read) in
    (fire_timeout (record { kind = reading; my_gen = g; owner = 1 }) v).calls
    ≡ (0, received (err timed_out)) ∷ (1, received (ok (6 ∷ []))) ∷ waiting_read.calls
fire_timeout-hits_older_example =
    fire_timeout-hits_older 5 1 0 8 8 (6 ∷ []) added waiting_read
      (unfold read_op new_world from_fd in refl)
