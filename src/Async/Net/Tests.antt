-- ===== src/Async/Net/Tests.antt =====
-- Runs of the sockets of rust_async/net.rs.
use rust_base.Base.{ℕ, ◌≡◌, refl, true, false, some, List, [], ◌∷◌}
use rust_base.Async.Reactor.{new}
use rust_base.Async.Net.{
  Result, ok, err, os, invalid_input, Turn, done, would_block, poll_read, read, write, write_all,
  connect,
}
use rust_base.Async.Net.Waits.{Gives, read-Gives, Ends, poll_read-Ends}
use rust_base.Async.Net.WriteAll.{Sent, write_all-whole}

-- A call that would block, while the reactor reports the socket, and one that reads three bytes.
abbrev turns : List (Turn ℕ)
turns = would_block true ∷ done 3 ∷ []

read-Gives_example :
    Gives (λ t. t.state.read_waker ≡ some 7) turns (read false 1 7 turns (new 5))
    × Gives (λ t. t.state.write_waker ≡ some 7) turns (write false 1 7 turns (new 5))
read-Gives_example = read-Gives false 1 7 turns (new 5)

poll_read-Ends_example :
    Ends (poll_read {A = ℕ} 1 7 (would_block false ∷ would_block false ∷ []) (new 5))
poll_read-Ends_example =
    poll_read-Ends 1 7 (would_block false) (would_block false) (new 5) refl refl

abbrev writes : List (Result ℕ)
writes = ok 2 ∷ ok 9 ∷ ok 1 ∷ []

abbrev three : List ℕ
three = 1 ∷ 2 ∷ 3 ∷ []

write_all-whole_example : Sent three (write_all writes three [])
write_all-whole_example = write_all-whole writes three

-- The first address that can be reached is taken, and no address is an error.
connect_lem :
    (connect {A = ℕ} (ok (err (os 111) ∷ ok 4 ∷ ok 5 ∷ [])) ≡ ok 4)
    × (connect {A = ℕ} (ok []) ≡ err invalid_input)
unfolding connect
connect_lem = (refl, refl)
