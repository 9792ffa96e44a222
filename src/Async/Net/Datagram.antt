-- ===== src/Async/Net/Datagram.antt =====
-- The futures of `UdpSocket` of rust_async/net.rs: each makes its call, and waits at the source when that
-- would block.
use rust_base.Base.{ℕ, ◌≡◌, Bool, some, List}
use rust_base.Async.Reactor.{Source}
use rust_base.Async.Net.{Turn, Polled, read, write}
use rust_base.Async.Net.Waits.{Gives, read-Gives}

-- The number of bytes that were sent.
unfoldable pub send_to : Bool → ℕ → ℕ → List (Turn ℕ) → Source → Polled ℕ
unfolding write
send_to waiting io task turns s = write waiting io task turns s

unfoldable pub send : Bool → ℕ → ℕ → List (Turn ℕ) → Source → Polled ℕ
unfolding write
send waiting io task turns s = write waiting io task turns s

-- The bytes and the address of the sender, which is a number here.
unfoldable pub recv_from : Bool → ℕ → ℕ → List (Turn (List ℕ × ℕ)) → Source → Polled (List ℕ × ℕ)
unfolding read
recv_from waiting io task turns s = read waiting io task turns s

unfoldable pub recv : Bool → ℕ → ℕ → List (Turn (List ℕ)) → Source → Polled (List ℕ)
unfolding read
recv waiting io task turns s = read waiting io task turns s

-- A datagram that is ready is the one that the first call gave that did not block, and a task that waits
-- for one has left its waker.
recv_from-Gives :
    (waiting : Bool) (io task : ℕ) (turns : List (Turn (List ℕ × ℕ))) (s : Source)
    → Gives (λ t. t.state.read_waker ≡ some task) turns (recv_from waiting io task turns s)
unfolding recv_from
recv_from-Gives waiting io task turns s = (read-Gives waiting io task turns s).0
