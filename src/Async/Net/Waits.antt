-- ===== src/Async/Net/Waits.antt =====
-- Polls of the sockets of rust_async/net.rs answer, or wait at the source.
use rust_base.Base.{
  ℕ, ◌≡◌, refl, Bool, true, false, Option, none, some, List, [], ◌∷◌, if◌then◌else◌, Bool-cases,
  inl, inr,
}
use rust_base.Sync.{Poll, ready, pending}
use rust_base.Async.Reactor.{
  Source, poll_readable, poll_writable, on_file_can_read, on_file_can_write,
}
use rust_base.Async.Reactor.Waker.{poll_readable-pending, poll_writable-pending}
use rust_base.Async.Net.{
  Result, ok, err, Turn, done, failed, would_block, Polled, ready_then, poll_io, poll_read,
  poll_write, read, write,
}

-- The answer of the first call that does not block.
abbrev pub answer : {A : Type 0} → List (Turn A) → Option (Result A)
answer [] = none
answer (done v ∷ turns) = some (ok v)
answer (failed e ∷ turns) = some (err e)
answer (would_block b ∷ turns) = answer turns

-- What a poll gives: nothing until the system has answered as often as it asks; the answer of the first
-- call that does not block; or the task waits.
abbrev pub Gives : {A : Type 0} → (Source → Type 0) → List (Turn A) → Polled A → Type 0
Gives Waits turns none = answer turns ≡ none
Gives Waits turns (some (pending, s)) = Waits s
Gives Waits turns (some (ready r, s)) = answer turns ≡ some r

Gives-later :
    {A : Type 0} (Waits : Source → Type 0) (b : Bool) (turns : List (Turn A)) (o : Polled A)
    → Gives Waits turns o
    → Gives Waits (would_block b ∷ turns) o
Gives-later Waits b turns none h = h
Gives-later Waits b turns (some (pending, s)) h = h
Gives-later Waits b turns (some (ready r, s)) h = h

-- The loop, of a `wait` that leaves what `Waits` says when it is pending.
module _ {A : Type 0} (wait : Source → Poll Unit × Source) (report : Source → Source)
    (Waits : Source → Type 0) (waits : (s : Source) → (wait s).0 ≡ pending → Waits (wait s).1) where
  ready_then-Gives :
      (o : Poll Unit × Source) (turns : List (Turn A))
      → (o.0 ≡ pending → Waits o.1)
      → ((s : Source) → Gives Waits turns (poll_io wait report turns s))
      → Gives Waits turns (ready_then o (poll_io wait report turns))
  ready_then-Gives (pending, s) turns w g = w refl
  ready_then-Gives (ready u, s) turns w g = g s

  poll_io-Gives :
      (turns : List (Turn A)) (s : Source) → Gives Waits turns (poll_io wait report turns s)
  poll_io-Gives [] s = refl
  poll_io-Gives (done v ∷ turns) s = refl
  poll_io-Gives (failed e ∷ turns) s = refl
  poll_io-Gives (would_block b ∷ turns) s =
      let t = if b then report s else s in
      Gives-later Waits b turns (ready_then (wait t) (poll_io wait report turns))
        (ready_then-Gives (wait t) turns (waits t) (λ u. poll_io-Gives turns u))

  waiting-Gives :
      (waiting : Bool) (turns : List (Turn A)) (s : Source)
      → Gives Waits turns (
          if waiting
          then ready_then (wait s) (poll_io wait report turns)
          else poll_io wait report turns s)
  waiting-Gives true turns s =
      ready_then-Gives (wait s) turns (waits s) (λ u. poll_io-Gives turns u)
  waiting-Gives false turns s = poll_io-Gives turns s

-- Of the futures of `read` and `write`, polled for the first time or after they were pending: whatever
-- the system answers and whenever the reactor reports the socket, a poll that is ready has the answer of
-- the first call that does not block, and one that is pending has left the waker of its task at the
-- source.
pub read-Gives :
    {A : Type 0} (waiting : Bool) (io task : ℕ) (turns : List (Turn A)) (s : Source)
    → Gives (λ t. t.state.read_waker ≡ some task) turns (read waiting io task turns s)
      × Gives (λ t. t.state.write_waker ≡ some task) turns (write waiting io task turns s)
unfolding read write poll_read poll_write
read-Gives waiting io task turns s = (
  waiting-Gives (poll_readable io task) (on_file_can_read io) (λ t. t.state.read_waker ≡ some task)
      (poll_readable-pending io task) waiting turns s,
  waiting-Gives (poll_writable io task) (on_file_can_write io)
      (λ t. t.state.write_waker ≡ some task) (poll_writable-pending io task) waiting turns s,
)

-- Whether a loop has returned.
abbrev pub Ends : {A : Type 0} → Polled A → Type 0
Ends none = ⊥
Ends (some o) = Unit

-- A turn in the middle of which the reactor does not report the socket.
abbrev pub Quiet : {A : Type 0} → Turn A → Type 0
Quiet (done v) = Unit
Quiet (failed e) = Unit
Quiet (would_block b) = b ≡ false

last-Ends :
    {A : Type 0} (io task : ℕ) (b : Turn A) (s : Source)
    → Quiet b
    → s.state.read_ready ≡ false
    → Ends (poll_io (poll_readable io task) (on_file_can_read io) (b ∷ []) s)
unfolding poll_readable
last-Ends io task (done v) s k e = tt
last-Ends io task (failed x) s k e = tt
last-Ends io task (would_block b) s k e = rw k (rw e tt)

-- If the reactor does not report the socket in the middle of a poll, two calls are enough for it: a
-- report from before is used up by the first.
pub poll_read-Ends :
    {A : Type 0} (io task : ℕ) (a b : Turn A) (s : Source)
    → Quiet a
    → Quiet b
    → Ends (poll_read io task (a ∷ b ∷ []) s)
unfolding poll_read poll_readable
poll_read-Ends io task (done v) b s h k = tt
poll_read-Ends io task (failed e) b s h k = tt
poll_read-Ends io task (would_block r) b s h k = elim (Bool-cases s.state.read_ready) [
  | inl e ↦ rw h (
      rw e
        (last-Ends io task b (record s { state = record s.state { read_ready = false } }) k refl))
  | inr e ↦ rw h (rw e tt)
]
