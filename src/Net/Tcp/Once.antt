-- ===== src/Net/Tcp/Once.antt =====
-- A callback of rust_net/tcp_client_socket.rs is used once.
use rust_base.Base.{ℕ, arith}
use rust_base.Net.{Result, ok, err}
use rust_base.Net.Socket.{World, Ctl, call, open_fd}
use rust_base.Net.Socket.Uses.{Adds, connect-Adds, open_fd-Keeps}
use rust_base.Net.Tcp.{client_connect}

-- A connect of a client calls its callback or keeps it, and no other one, whatever the system answers,
-- also when the socket cannot be opened.
pub client_connect-Adds :
    (i cb : ℕ) (ctl : Ctl) (opened : Result ℕ) (r : Result Unit) (w : World)
    → Adds i cb w (client_connect cb ctl opened r w)
unfolding client_connect call open_fd
client_connect-Adds i cb ctl (err e) r w = omega arith
client_connect-Adds i cb ctl (ok fd) r w =
    let kept = open_fd-Keeps i w (ok fd) in
    let added = connect-Adds i (open_fd (ok fd) w) fd cb ctl r in omega (arith, kept, added)
