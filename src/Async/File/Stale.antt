-- ===== src/Async/File/Stale.antt =====
-- What an operation of rust_async/fs.rs that was given up leaves behind.
use rust_base.Base.{ℕ, ◌+◌, ◌≡◌, refl, Option, none, some, List, [], ◌∷◌, length, take, drop}
use rust_base.Sync.{ready}
use rust_base.Io.Disk.{Result, ok, Transfer}
use rust_base.Async.Job.{Blocking, poll_job, poll}
use rust_base.Async.File.{
  File, ReadJob, WriteJob, SeekFrom, start, seek_turn, seek_with, seek_from, poll_seek, read_turn,
  read_with, poll_read,
}

-- A future whose job has run.
abbrev pub over : {J A : Type 0} → A → Option ℕ → Blocking J A
over v waker = record { job = none; state = record { value = some v; waker = waker } }

module _ (task : ℕ) (content : List ℕ) where
  -- A read that was given up answers the first read after a seek: it delivers the bytes from before the
  -- seek, and the cursor is their number after where the seek went.
  pub poll_read-before_seek :
      (pos n len b : ℕ) (bs leftover : List ℕ) (w : Option ℕ) (asked : Option (Option ℕ))
      (ran : Option Transfer) (writes : Option (Blocking WriteJob (Result ℕ)))
      → let f : File = record {
        pos = pos;
        read_busy = some (over (ok (b ∷ bs)) w);
        read_leftover = leftover;
        write_busy = writes;
        seek_busy = none;
      } in
        let g : File = record f { pos = n; read_leftover = [] } in
        (poll_seek task (start n) asked content f ≡ some (ready (ok n), g))
        × (poll_read task len ran content g
            ≡ some (
              ready (ok (take len (b ∷ bs))),
              record g {
                pos = n + length (b ∷ bs);
                read_busy = none;
                read_leftover = drop len (b ∷ bs);
              },
            ))
  unfolding poll_seek seek_turn seek_with seek_from poll_read read_turn read_with poll_job poll
  poll_read-before_seek pos n len b bs leftover w asked ran writes = (refl, refl)

  -- A seek from the end that was given up answers the next seek, wherever that wants to go.
  pub poll_seek-answers_older :
      (pos k : ℕ) (leftover : List ℕ) (w : Option ℕ) (from : SeekFrom) (asked : Option (Option ℕ))
      (reads : Option (Blocking ReadJob (Result (List ℕ))))
      (writes : Option (Blocking WriteJob (Result ℕ)))
      → let f : File = record {
        pos = pos;
        read_busy = reads;
        read_leftover = leftover;
        write_busy = writes;
        seek_busy = some (over (ok k) w);
      } in
        poll_seek task from asked content f
        ≡ some (ready (ok k), record f { pos = k; read_leftover = []; seek_busy = none })
  unfolding poll_seek seek_turn seek_with poll_job poll
  poll_seek-answers_older pos k leftover w from asked reads writes = refl
