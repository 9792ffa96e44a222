-- ===== src/Async/Reactor/Tests.antt =====
-- Runs of a source of rust_async/reactor.rs.
use rust_base.Base.{none, ◌≡◌, refl, true, false, some, List, [], ◌∷◌, arith}
use rust_base.Io.Pump
use rust_base.Io.Pump.{Flags, reads, writes}
use rust_base.Async.Reactor.{
  new, Event, polls_readable, polls_writable, arming, event, calls_back, run,
}
use rust_base.Async.Reactor.Armed.{ServedFor, run-armed}

abbrev readable : Flags
readable = record { epollin = true; epollout = false; epollerr = false; epollhup = false }

-- A reader and a writer wait; the reader is served, and the interest of the writer is armed again.
abbrev duplex : List Event
duplex =
    polls_readable 1 7
    ∷ polls_writable 1 8
    ∷ arming Pump.ok true
    ∷ arming Pump.exists true
    ∷ event readable
    ∷ calls_back 1
    ∷ []

duplex_woken : (run duplex (new 5)).woken ≡ 7 ∷ []
unfolding run new native.Mathlib.Decide.ℕ_discrete
duplex_woken = refl

duplex_waits : (run duplex (new 5)).state.write_waker ≡ some 8
unfolding run new native.Mathlib.Decide.ℕ_discrete
duplex_waits = refl

run-armed_example :
    ServedFor none reads (run duplex (new 5)) × ServedFor (some 8) writes (run duplex (new 5))
unfolding run new native.Mathlib.Decide.ℕ_discrete
run-armed_example = run-armed duplex 5 (ground arith) (tt, (tt, (refl, (refl, (tt, (tt, tt))))))
