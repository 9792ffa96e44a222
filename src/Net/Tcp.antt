-- ===== src/Net/Tcp.antt =====
-- `TcpClientSocket` and `TcpServerSocket` of rust_net/tcp_client_socket.rs and rust_net/tcp_server_socket.rs.
-- `TcpSocket` of rust_net/tcp_socket.rs between them and `SocketPosix` passes its calls on.
pub mod Once
use rust_base.Base.{ℕ, ◌+◌, Option, none, some, List, []}
use rust_base.Net.{Errno, Error, Result, ok, err}
use rust_base.Net.Socket.{
  SocketPosix, Outcome, connected, accepted, Kind, connecting, World, Ctl, call, open_fd,
}
use rust_base.Net.Socket.Ops.{connect, accept, close}
use rust_base.Net.Socket.Fire.{schedule_timeout, gen_of}

-- `connect` of the client, with the answers to `socket` and to `connect`; whether the options could be
-- set is not looked at.
unfoldable pub client_connect : ℕ → Ctl → Result ℕ → Result Unit → World → World
unfolding call open_fd connect
client_connect cb ctl (err e) r w = call cb (connected (err e)) (open_fd (err e) w)
client_connect cb ctl (ok fd) r w = connect fd cb ctl r (open_fd (ok fd) w)

-- The timeout is scheduled for a socket that could be opened.
unfoldable pub client_connect_with_timeout : ℕ → Ctl → Result ℕ → Result Unit → World → World
unfolding client_connect schedule_timeout gen_of
client_connect_with_timeout cb ctl (err e) r w = client_connect cb ctl (err e) r w
client_connect_with_timeout cb ctl (ok fd) r w =
    schedule_timeout connecting (gen_of connecting w.socket + 1) cb
      (client_connect cb ctl (ok fd) r w)

unfoldable pub disconnect : World → World
unfolding close
disconnect w = close w

-- `?` of a call without a value.
abbrev pub then_try : Result Unit → World → (World → Result Unit × World) → Result Unit × World
then_try (err e) w rest = (err e, w)
then_try (ok u) w rest = rest w

-- `listen` of the server, with the answers to `socket`, `setsockopt`, `bind` and `listen`.
unfoldable pub server_listen :
    Result ℕ → Result Unit → Result Unit → Result Unit → World → Result Unit × World
unfolding open_fd
server_listen (err e) option bound listening w = (err e, w)
server_listen (ok fd) option bound listening w =
    then_try option (open_fd (ok fd) w) (λ u. then_try bound u (λ v. (listening, v)))

-- `accept` of the server; the callback gets the descriptor of the connection.
unfoldable pub server_accept : ℕ → ℕ → Ctl → Result ℕ → World → World
unfolding accept
server_accept fd cb ctl r w = accept fd cb ctl r w
