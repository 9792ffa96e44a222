-- ===== src/Async/Net/Unix.antt =====
-- `UnixStream`, `UnixListener` and `UnixDatagram` of rust_async/os/unix/net.rs: the loops of rust_async/net.rs
-- on other system calls.
use rust_base.Base.{ℕ, ◌≡◌, Bool, Option, some, List, []}
use rust_base.Sync.{Poll}
use rust_base.Async.Reactor.{Source}
use rust_base.Async.Net
use rust_base.Async.Net.{Result, Turn, Polled}
use rust_base.Async.Net.Waits.{Gives, read-Gives}
use rust_base.Async.Net.WriteAll.{Sent, write_all-whole}

unfoldable pub read : Bool → ℕ → ℕ → List (Turn (List ℕ)) → Source → Polled (List ℕ)
unfolding Net.read
read waiting io task turns s = Net.read waiting io task turns s

unfoldable pub write : Bool → ℕ → ℕ → List (Turn ℕ) → Source → Polled ℕ
unfolding Net.write
write waiting io task turns s = Net.write waiting io task turns s

unfoldable pub write_all : List (Result ℕ) → List ℕ → List ℕ → Option (Result Unit × List ℕ)
unfolding Net.write_all
write_all writes buf sent = Net.write_all writes buf sent

unfoldable pub poll_read : ℕ → ℕ → List (Turn (List ℕ)) → Source → Polled (List ℕ)
unfolding Net.poll_read
poll_read io task turns s = Net.poll_read io task turns s

unfoldable pub poll_write : ℕ → ℕ → List (Turn ℕ) → Source → Polled ℕ
unfolding Net.poll_write
poll_write io task turns s = Net.poll_write io task turns s

-- A connection is its descriptor.
unfoldable pub accept : Bool → ℕ → ℕ → List (Turn ℕ) → Source → Polled ℕ
unfolding Net.accept
accept waiting io task turns s = Net.accept waiting io task turns s

unfoldable pub incoming_poll :
    ℕ → ℕ → List (Turn ℕ) → Source → Option (Poll (Option (Result ℕ)) × Source)
unfolding Net.incoming_poll
incoming_poll io task turns s = Net.incoming_poll io task turns s

unfoldable pub send_to : Bool → ℕ → ℕ → List (Turn ℕ) → Source → Polled ℕ
unfolding Net.write
send_to waiting io task turns s = Net.write waiting io task turns s

unfoldable pub recv_from : Bool → ℕ → ℕ → List (Turn (List ℕ × ℕ)) → Source → Polled (List ℕ × ℕ)
unfolding Net.read
recv_from waiting io task turns s = Net.read waiting io task turns s

unfoldable pub send : Bool → ℕ → ℕ → List (Turn ℕ) → Source → Polled ℕ
unfolding Net.write
send waiting io task turns s = Net.write waiting io task turns s

unfoldable pub recv : Bool → ℕ → ℕ → List (Turn (List ℕ)) → Source → Polled (List ℕ)
unfolding Net.read
recv waiting io task turns s = Net.read waiting io task turns s

-- A task that waits for a connection has left its waker, and one that is ready is the first that came.
accept-Gives :
    (waiting : Bool) (io task : ℕ) (turns : List (Turn ℕ)) (s : Source)
    → Gives (λ t. t.state.read_waker ≡ some task) turns (accept waiting io task turns s)
unfolding accept Net.accept
accept-Gives waiting io task turns s = (read-Gives waiting io task turns s).0

-- A buffer is sent in order.
write_all-Sent : (writes : List (Result ℕ)) (buf : List ℕ) → Sent buf (write_all writes buf [])
unfolding write_all
write_all-Sent writes buf = write_all-whole writes buf
