-- ===== src/Async/Net.antt =====
-- The loops of rust_async/net.rs around a call that would block and the source of the socket. What the
-- system answers to each call, and whether the reactor reports the socket before the code has looked at
-- the source after it, is a list of turns.
pub mod Waits
pub mod WriteAll
pub mod Datagram
pub mod Unix
pub mod Tests
use rust_base.Base.{
  ℕ, zero, suc, ◌+◌, Bool, true, false, Option, none, some, List, [], ◌∷◌, ◌++◌, if◌then◌else◌,
  take, drop,
}
use rust_base.Sync.{Poll, ready, pending}
use rust_base.Async.Reactor.{
  Source, poll_readable, poll_writable, on_file_can_read, on_file_can_write,
}

-- `io::Error`: an error of the system, or one that the code makes.
pub data Error : Type 0 where
  os : ℕ → Error
  invalid_input write_zero : Error

-- `io::Result`
pub data Result (A : Type 0) : Type 0 where
  ok : A → Result A
  err : Error → Result A

-- What a call on a socket that does not block answers, and whether a report of the reactor follows.
pub data Turn (A : Type 0) : Type 0 where
  done : A → Turn A
  failed : Error → Turn A
  would_block : Bool → Turn A

abbrev pub Polled : Type 0 → Type 0
Polled A = Option (Poll (Result A) × Source)

-- `ready!`, and round again.
abbrev pub ready_then : {A : Type 0} → Poll Unit × Source → (Source → Polled A) → Polled A
ready_then (pending, s) rest = some (pending, s)
ready_then (ready u, s) rest = rest s

-- The loop of a poll function; `wait` polls the source, and `report` is the callback of the reactor.
abbrev pub poll_io :
    {A : Type 0}
    → (Source → Poll Unit × Source)
    → (Source → Source)
    → List (Turn A)
    → Source
    → Polled A
poll_io wait report [] s = none
poll_io wait report (done v ∷ turns) s = some (ready (ok v), s)
poll_io wait report (failed e ∷ turns) s = some (ready (err e), s)
poll_io wait report (would_block b ∷ turns) s =
    ready_then (wait (if b then report s else s)) (poll_io wait report turns)

-- The number `io` is that of the IO runner, as for the source.
unfoldable pub poll_read : {A : Type 0} → ℕ → ℕ → List (Turn A) → Source → Polled A
unfolding poll_readable on_file_can_read
poll_read io task turns s = poll_io (poll_readable io task) (on_file_can_read io) turns s

unfoldable pub poll_write : {A : Type 0} → ℕ → ℕ → List (Turn A) → Source → Polled A
unfolding poll_writable on_file_can_write
poll_write io task turns s = poll_io (poll_writable io task) (on_file_can_write io) turns s

-- The poll of the future of `read`, which looks at the source first when it has been pending.
unfoldable pub read : {A : Type 0} → Bool → ℕ → ℕ → List (Turn A) → Source → Polled A
unfolding poll_read poll_readable
read waiting io task turns s =
    if waiting
    then ready_then (poll_readable io task s) (poll_read io task turns)
    else poll_read io task turns s

-- That of `write`.
unfoldable pub write : {A : Type 0} → Bool → ℕ → ℕ → List (Turn A) → Source → Polled A
unfolding poll_write poll_writable
write waiting io task turns s =
    if waiting
    then ready_then (poll_writable io task s) (poll_write io task turns)
    else poll_write io task turns s

-- `accept` of the listener is such a future, and `poll_next` of `Incoming` such a poll, with the stream
-- that `Async::new` makes of the connection, or its error.
unfoldable pub accept : {A : Type 0} → Bool → ℕ → ℕ → List (Turn A) → Source → Polled A
unfolding read
accept waiting io task turns s = read waiting io task turns s

abbrev pub yielded : {A : Type 0} → Poll (Result A) → Poll (Option (Result A))
yielded pending = pending
yielded (ready r) = ready (some r)

unfoldable pub incoming_poll :
    {A : Type 0} → ℕ → ℕ → List (Turn A) → Source → Option (Poll (Option (Result A)) × Source)
unfolding poll_read
incoming_poll io task turns s = elim (poll_read io task turns s) [
  | none ↦ none
  | some (o, t) ↦ some (yielded o, t)
]

-- `write_all`, with what each `write` gives and the bytes that were sent; `none` if it waits for one.
unfoldable pub write_all : List (Result ℕ) → List ℕ → List ℕ → Option (Result Unit × List ℕ)
write_all writes [] sent = some (ok tt, sent)
write_all [] (b ∷ buf) sent = none
write_all (err e ∷ writes) (b ∷ buf) sent = some (err e, sent)
write_all (ok zero ∷ writes) (b ∷ buf) sent = some (err write_zero, sent)
write_all (ok (suc n) ∷ writes) (b ∷ buf) sent =
    write_all writes (drop n buf) (sent ++ b ∷ take n buf)

-- `connect`, with what `connect_one` gives for each address and the last error.
abbrev pub tried : {A : Type 0} → Option Error → List (Result A) → Result A
tried none [] = err invalid_input
tried (some e) [] = err e
tried last (ok c ∷ rest) = ok c
tried last (err e ∷ rest) = tried (some e) rest

-- The addresses may not be resolved.
unfoldable pub connect : {A : Type 0} → Result (List (Result A)) → Result A
connect (err e) = err e
connect (ok attempts) = tried none attempts
