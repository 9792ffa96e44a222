-- ===== src/Async/File.antt =====
-- `File` of rust_async/fs.rs. A task is a number; the pool may run a job before the poll that posted it
-- polls its future, so that a poll has the answer of the system, if there is one by then, as an argument.
pub mod Cursor
pub mod Reading
pub mod Order
pub mod Seeks
pub mod Writing
pub mod RoundTrip
pub mod Stale
pub mod Tests
use rust_base.Base.{
  ℕ, zero, suc, ◌+◌, ◌-◌, ◌^◌, Bool, true, false, Option, none, some, List, [], ◌∷◌, ◌++◌,
  if◌then◌else◌, is_empty, length, take, drop, leb, ltb, min,
}
use rust_base.Sync.{Poll, ready, pending}
use rust_base.Io.Disk.{
  Error, os, invalid_input, Result, ok, err, Transfer, read_at, WriteAll, write_all_at,
}
use rust_base.Async.Job.{Blocking, fs_blocking, completed, poll_job}
use rust_base.Async.Loop.{Turn, returns, again, turns}

-- What the closures capture that the pool runs.
pub record ReadJob : Type 0 where
  pub offset : ℕ
  pub len : ℕ

pub record WriteJob : Type 0 where
  pub offset : ℕ
  pub bytes : List ℕ

-- An `i64`.
pub data Delta : Type 0 where
  forward backward : ℕ → Delta

pub record File : Type 0 where
  pub pos : ℕ
  pub read_busy : Option (Blocking ReadJob (Result (List ℕ)))
  pub read_leftover : List ℕ
  pub write_busy : Option (Blocking WriteJob (Result ℕ))
  pub seek_busy : Option (Blocking Delta (Result ℕ))

unfoldable pub from_std : File
from_std = record {
  pos = 0;
  read_busy = none;
  read_leftover = [];
  write_busy = none;
  seek_busy = none;
}

-- The future after its job has run, if the pool ran it.
abbrev pub run_job : {J A : Type 0} → Option A → Blocking J A → Blocking J A
unfolding completed
run_job none b = b
run_job (some v) b = (completed v b).1

abbrev pub read_ran : ReadJob → Option Transfer → List ℕ → Option (Result (List ℕ))
read_ran j none content = none
read_ran j (some t) content = some (read_at t j.offset j.len content)

-- `buf.len().max(1)`
abbrev pub at_least_one : ℕ → ℕ
at_least_one zero = 1
at_least_one (suc n) = suc n

abbrev pub ReadTurn : Type 0
ReadTurn = Turn (Poll (Result (List ℕ))) File

-- The bytes are in the buffer of the caller when they are the answer.
abbrev pub read_leftover : ℕ → File → ReadTurn
read_leftover len f =
    returns (ready (ok (take len f.read_leftover)))
      (record f { read_leftover = drop len f.read_leftover })

abbrev pub read_arrived : List ℕ → File → ReadTurn
read_arrived [] f = returns (ready (ok [])) f
read_arrived (b ∷ bytes) f =
    again (record f { pos = f.pos + length (b ∷ bytes); read_leftover = b ∷ bytes })

abbrev pub read_polled :
    Poll (Result (List ℕ)) × Blocking ReadJob (Result (List ℕ)) → File → ReadTurn
read_polled (pending, job) f = returns pending (record f { read_busy = some job })
read_polled (ready (err e), job) f = returns (ready (err e)) (record f { read_busy = none })
read_polled (ready (ok bytes), job) f = read_arrived bytes (record f { read_busy = none })

abbrev pub read_with :
    ℕ → ℕ → Option Transfer → List ℕ → Option (Blocking ReadJob (Result (List ℕ))) → File → ReadTurn
unfolding poll_job fs_blocking
read_with task len ran content (some job) f = read_polled (poll_job task job) f
read_with task len ran content none f =
    let job : ReadJob = record { offset = f.pos; len = at_least_one len } in
    again (record f { read_busy = some (run_job (read_ran job ran content) (fs_blocking job)) })

-- A turn of the loop of `poll_read`.
unfoldable pub read_turn : ℕ → ℕ → Option Transfer → List ℕ → File → ReadTurn
read_turn task len ran content f =
    if is_empty f.read_leftover
    then read_with task len ran content f.read_busy f
    else read_leftover len f

unfoldable pub poll_read :
    ℕ → ℕ → Option Transfer → List ℕ → File → Option (Poll (Result (List ℕ)) × File)
unfolding read_turn
poll_read task len ran content f = turns (read_turn task len ran content) 3 f

-- The pool runs the job of a read that waits.
abbrev pub read_runs :
    Transfer
    → List ℕ
    → Blocking ReadJob (Result (List ℕ))
    → List ℕ × Blocking ReadJob (Result (List ℕ))
unfolding completed
read_runs t content b = elim b.job [
  | none ↦ ([], b)
  | some j ↦ completed (read_at t j.offset j.len content) b
]

abbrev pub WriteTurn : Type 0
WriteTurn = Turn (Poll (Result ℕ)) (List ℕ × File)

-- `write_all_at(..).map(|()| n)`
abbrev pub counted : ℕ → Result Unit → Result ℕ
counted n (ok u) = ok n
counted n (err e) = err e

-- A write that runs, on the content of the file.
unfoldable pub write_runs :
    WriteAll
    → List ℕ
    → Blocking WriteJob (Result ℕ)
    → List ℕ × (List ℕ × Blocking WriteJob (Result ℕ))
unfolding write_all_at completed
write_runs a content b = elim b.job [
  | none ↦ ([], (content, b))
  | some j ↦
      let (result, written) = write_all_at a j.offset j.bytes content in
      let (woken, after) = completed (counted (length j.bytes) result) b in
      (woken, (written, after))
]

abbrev pub write_posted :
    Option WriteAll → List ℕ → Blocking WriteJob (Result ℕ) → List ℕ × Blocking WriteJob (Result ℕ)
unfolding write_runs
write_posted none content b = (content, b)
write_posted (some a) content b = (write_runs a content b).1

abbrev pub write_polled : List ℕ → Poll (Result ℕ) × Blocking WriteJob (Result ℕ) → File → WriteTurn
write_polled content (pending, job) f =
    returns pending (content, record f { write_busy = some job })
write_polled content (ready (err e), job) f =
    returns (ready (err e)) (content, record f { write_busy = none })
write_polled content (ready (ok n), job) f =
    returns (ready (ok n)) (content, record f { write_busy = none; pos = f.pos + n })

abbrev pub write_with :
    ℕ → List ℕ → Option WriteAll → List ℕ → Option (Blocking WriteJob (Result ℕ)) → File → WriteTurn
unfolding poll_job fs_blocking
write_with task buf ran content (some job) f = write_polled content (poll_job task job) f
write_with task buf ran content none f =
    let (written, job) =
      write_posted ran content (fs_blocking (record { offset = f.pos; bytes = buf })) in
    again (written, record f { write_busy = some job })

-- A turn of the loop of `poll_write`.
unfoldable pub write_turn : ℕ → List ℕ → Option WriteAll → List ℕ × File → WriteTurn
write_turn task buf ran (content, f) = write_with task buf ran content f.write_busy f

unfoldable pub poll_write :
    ℕ → List ℕ → Option WriteAll → List ℕ × File → Option (Poll (Result ℕ) × (List ℕ × File))
unfolding write_turn
poll_write task buf ran s = turns (write_turn task buf ran) 2 s

unfoldable pub poll_flush : File → Poll (Result Unit) × File
poll_flush f = (ready (ok tt), f)

unfoldable pub poll_close : File → Poll (Result Unit) × File
poll_close f = (ready (ok tt), f)

pub data SeekFrom : Type 0 where
  start : ℕ → SeekFrom
  current end : Delta → SeekFrom

-- `checked_add_signed`, with the error that the code makes of `none`.
unfoldable pub added : ℕ → Delta → Result ℕ
added n (forward k) = if ltb (n + k) (2 ^ 64) then ok (n + k) else err invalid_input
added n (backward k) = if leb k n then ok (n - k) else err invalid_input

abbrev pub SeekTurn : Type 0
SeekTurn = Turn (Poll (Result ℕ)) File

abbrev pub moved : Result ℕ → File → SeekTurn
moved (err e) f = returns (ready (err e)) f
moved (ok n) f = returns (ready (ok n)) (record f { pos = n; read_leftover = [] })

-- The answer to the query of the length is an error, or the length that the content has then.
abbrev pub sought : Delta → Option (Option ℕ) → List ℕ → Option (Result ℕ)
unfolding added
sought d none content = none
sought d (some none) content = some (added (length content) d)
sought d (some (some e)) content = some (err (os e))

abbrev pub seek_polled : Poll (Result ℕ) × Blocking Delta (Result ℕ) → File → SeekTurn
seek_polled (pending, job) f = returns pending (record f { seek_busy = some job })
seek_polled (ready r, job) f = moved r (record f { seek_busy = none })

abbrev pub seek_from : SeekFrom → Option (Option ℕ) → List ℕ → File → SeekTurn
unfolding added fs_blocking
seek_from (start n) ran content f = moved (ok n) f
seek_from (current d) ran content f = moved (added f.pos d) f
seek_from (end d) ran content f =
    again (record f { seek_busy = some (run_job (sought d ran content) (fs_blocking d)) })

abbrev pub seek_with :
    ℕ → SeekFrom → Option (Option ℕ) → List ℕ → Option (Blocking Delta (Result ℕ)) → File → SeekTurn
unfolding poll_job
seek_with task from ran content none f = seek_from from ran content f
seek_with task from ran content (some job) f = seek_polled (poll_job task job) f

-- A turn of the loop of `poll_seek`.
unfoldable pub seek_turn : ℕ → SeekFrom → Option (Option ℕ) → List ℕ → File → SeekTurn
seek_turn task from ran content f = seek_with task from ran content f.seek_busy f

unfoldable pub poll_seek :
    ℕ → SeekFrom → Option (Option ℕ) → List ℕ → File → Option (Poll (Result ℕ) × File)
unfolding seek_turn
poll_seek task from ran content f = turns (seek_turn task from ran content) 2 f
