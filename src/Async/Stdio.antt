-- ===== src/Async/Stdio.antt =====
-- `Stdin` and `Writer` of rust_async/io.rs. The standard input is the bytes that are still to come, an
-- output the bytes that it has got; what the system does with a call is an argument.
pub mod Input
pub mod Order
pub mod Tests
use rust_base.Base.{
  ℕ, suc, Bool, true, false, Option, none, some, List, [], ◌∷◌, ◌++◌, if◌then◌else◌, is_empty,
  is_some, length, take, drop, min,
}
use rust_base.Sync.{Poll, ready, pending}
use rust_base.Io.Disk.{
  Error, os, Result, ok, err, Transfer, limit, failed, WriteAll, all, failed_after,
}
use rust_base.Async.Job.{OneshotState, set}
use rust_base.Async.Tasks.{Offload, offload, offload_poll, posted_from, ran}
use rust_base.Async.File.{at_least_one, counted}
use rust_base.Async.Loop.{Turn, returns, again, turns}

-- The closure of a read captures the size of its buffer.
pub record Stdin : Type 0 where
  pub busy : Option (Offload ℕ (Result (List ℕ)))
  pub leftover : List ℕ

unfoldable pub stdin : Stdin
stdin = record { busy = none; leftover = [] }

-- A blocking `read`, with what is still to come.
unfoldable pub read : Transfer → ℕ → List ℕ → Result (List ℕ) × List ℕ
read (failed e) len input = (err (os e), input)
read (limit n) len input = (ok (take (min len (suc n)) input), drop (min len (suc n)) input)

-- What a job leaves that the pool runs with the answer, if it has one.
abbrev pub left_by : Option Transfer → Option ℕ → List ℕ → List ℕ
unfolding read
left_by (some t) (some len) input = (read t len input).1
left_by _ _ input = input

abbrev pub answer_of : Option Transfer → List ℕ → ℕ → Result (List ℕ)
unfolding read
answer_of none input len = ok []
answer_of (some t) input len = (read t len input).0

abbrev pub ReadTurn : Type 0
ReadTurn = Turn (Poll (Result (List ℕ))) (List ℕ × Stdin)

abbrev pub read_arrived : List ℕ → List ℕ → Stdin → ReadTurn
read_arrived input [] s = returns (ready (ok [])) (input, s)
read_arrived input (b ∷ bytes) s = again (input, record s { leftover = b ∷ bytes })

abbrev pub read_polled :
    List ℕ → Poll (Result (List ℕ)) × (List ℕ × Offload ℕ (Result (List ℕ))) → Stdin → ReadTurn
read_polled input (pending, (woken, job)) s = returns pending (input, record s { busy = some job })
read_polled input (ready (err e), (woken, job)) s =
    returns (ready (err e)) (input, record s { busy = none })
read_polled input (ready (ok bytes), (woken, job)) s =
    read_arrived input bytes (record s { busy = none })

-- The answer is there if the pool runs the job before this poll has looked for its result.
abbrev pub read_with :
    ℕ → ℕ → Option Transfer → List ℕ → Option (Offload ℕ (Result (List ℕ))) → Stdin → ReadTurn
unfolding offload offload_poll
read_with task len answer input none s =
    again (input, record s { busy = some (offload (at_least_one len)) })
read_with task len answer input (some job) s =
    read_polled (left_by answer (posted_from job.job job).posted input)
      (offload_poll (answer_of answer input) task (is_some answer) job) s

-- A turn of the loop of `poll_read`.
unfoldable pub read_turn : ℕ → ℕ → Option Transfer → List ℕ × Stdin → ReadTurn
read_turn task len answer (input, s) =
    if is_empty s.leftover
    then read_with task len answer input s.busy s
    else returns (ready (ok (take len s.leftover)))
        (input, record s { leftover = drop len s.leftover })

unfoldable pub poll_read :
    ℕ → ℕ → Option Transfer → List ℕ × Stdin → Option (Poll (Result (List ℕ)) × (List ℕ × Stdin))
unfolding read_turn
poll_read task len answer s = turns (read_turn task len answer) 3 s

-- The pool runs the job of a read that waits.
unfoldable pub read_runs : Transfer → List ℕ × Stdin → List ℕ × Stdin
unfolding ran read
read_runs t (input, s) = elim s.busy [
  | none ↦ (input, s)
  | some job ↦ (
    left_by (some t) job.posted input,
    record s { busy = some (ran (answer_of (some t) input) job.posted job).1 },
  )
]

-- The closure of a write captures the bytes; a flush is a job of its own.
pub record Writer : Type 0 where
  pub write_busy : Option (Offload (List ℕ) (Result ℕ))
  pub flush_busy : Option (Offload Unit (Result Unit))

unfoldable pub writer : Writer
writer = record { write_busy = none; flush_busy = none }

-- `write_all(&data).map(|()| len)`, and what the output has then.
unfoldable pub write_all : WriteAll → List ℕ → List ℕ → Result ℕ × List ℕ
write_all all bytes output = (ok (length bytes), output ++ bytes)
write_all (failed_after n e) bytes output = (err (os e), output ++ take n bytes)

abbrev pub written_by : Option WriteAll → Option (List ℕ) → List ℕ → List ℕ
unfolding write_all
written_by (some a) (some bytes) output = (write_all a bytes output).1
written_by _ _ output = output

abbrev pub count_of : Option WriteAll → List ℕ → List ℕ → Result ℕ
unfolding write_all
count_of none output bytes = ok 0
count_of (some a) output bytes = (write_all a bytes output).0

abbrev pub WriteTurn : Type 0
WriteTurn = Turn (Poll (Result ℕ)) (List ℕ × Writer)

abbrev pub write_polled :
    List ℕ → Poll (Result ℕ) × (List ℕ × Offload (List ℕ) (Result ℕ)) → Writer → WriteTurn
write_polled output (pending, (woken, job)) w =
    returns pending (output, record w { write_busy = some job })
write_polled output (ready r, (woken, job)) w =
    returns (ready r) (output, record w { write_busy = none })

abbrev pub write_with :
    ℕ
    → List ℕ
    → Option WriteAll
    → List ℕ
    → Option (Offload (List ℕ) (Result ℕ))
    → Writer
    → WriteTurn
unfolding offload offload_poll
write_with task buf answer output none w =
    again (output, record w { write_busy = some (offload buf) })
write_with task buf answer output (some job) w =
    write_polled (written_by answer (posted_from job.job job).posted output)
      (offload_poll (count_of answer output) task (is_some answer) job) w

unfoldable pub write_turn : ℕ → List ℕ → Option WriteAll → List ℕ × Writer → WriteTurn
write_turn task buf answer (output, w) = write_with task buf answer output w.write_busy w

unfoldable pub poll_write :
    ℕ → List ℕ → Option WriteAll → List ℕ × Writer → Option (Poll (Result ℕ) × (List ℕ × Writer))
unfolding write_turn
poll_write task buf answer s = turns (write_turn task buf answer) 2 s

-- What the flush gives, if the pool has run it: an error of the system or none.
abbrev pub flushed : Option ℕ → Result Unit
flushed none = ok tt
flushed (some e) = err (os e)

abbrev pub flush_of : Option (Option ℕ) → Unit {0} → Result Unit
flush_of none u = ok tt
flush_of (some r) u = flushed r

abbrev pub FlushTurn : Type 0
FlushTurn = Turn (Poll (Result Unit)) Writer

abbrev pub flush_polled :
    Poll (Result Unit) × (List ℕ × Offload Unit (Result Unit)) → Writer → FlushTurn
flush_polled (pending, (woken, job)) w = returns pending (record w { flush_busy = some job })
flush_polled (ready r, (woken, job)) w = returns (ready r) (record w { flush_busy = none })

abbrev pub flush_with :
    ℕ → Option (Option ℕ) → Option (Offload Unit (Result Unit)) → Writer → FlushTurn
unfolding offload offload_poll
flush_with task answer none w = again (record w { flush_busy = some (offload tt) })
flush_with task answer (some job) w =
    flush_polled (offload_poll (flush_of answer) task (is_some answer) job) w

unfoldable pub flush_turn : ℕ → Option (Option ℕ) → Writer → FlushTurn
flush_turn task answer w = flush_with task answer w.flush_busy w

unfoldable pub poll_flush : ℕ → Option (Option ℕ) → Writer → Option (Poll (Result Unit) × Writer)
unfolding flush_turn
poll_flush task answer w = turns (flush_turn task answer) 2 w

-- To close a standard stream is to flush it.
unfoldable pub poll_close : ℕ → Option (Option ℕ) → Writer → Option (Poll (Result Unit) × Writer)
unfolding poll_flush
poll_close task answer w = poll_flush task answer w
