-- ===== src/Async/File/Tests.antt =====
-- Runs of a file of rust_async/fs.rs.
use rust_base.Base.{ℕ, ◌≡◌, refl, none, some, List, [], ◌∷◌}
use rust_base.Sync.{ready}
use rust_base.Io.Disk.{ok, limit, failed, read_at}
use rust_base.Async.Loop.{Returns}
use rust_base.Async.File.{
  File, backward, from_std, start, end, poll_read, poll_seek, read_with, run_job,
}
use rust_base.Async.File.Cursor.{At, ReadsTo}
use rust_base.Async.File.Reading.{poll_read-ReadsTo}
use rust_base.Async.File.Order.{Event, polls, runs, After, run, run-reads_in_order}
use rust_base.Async.File.Seeks.{SeeksTo, poll_seek-SeeksTo}
use rust_base.Async.File.Writing.{Writing}
use rust_base.Async.File.Stale.{over, poll_read-before_seek}

abbrev bytes : List ℕ
bytes = 10 ∷ 20 ∷ 30 ∷ 40 ∷ []

from_std-At : At bytes 0 from_std
unfolding from_std
from_std-At = record { ahead = refl; rest = refl; busy = tt }

-- A poll that has to wait for the pool, one with a smaller buffer, and one for the byte that is left.
abbrev three_reads : List Event
three_reads =
    polls 5 3 none
    ∷ runs (limit 1)
    ∷ polls 5 1 none
    ∷ polls 5 3 none
    ∷ polls 5 3 (some (failed 5))
    ∷ polls 5 3 (some (limit 9))
    ∷ []

three_reads_lem : (run bytes three_reads ([], from_std)).0 ≡ bytes
unfolding run from_std read_with run_job read_at
three_reads_lem = refl

poll_read-ReadsTo_example :
    Returns (ReadsTo bytes 3 0) (poll_read 5 3 (some (limit 1)) bytes from_std)
poll_read-ReadsTo_example = poll_read-ReadsTo 5 3 0 (some (limit 1)) bytes from_std from_std-At

run-reads_in_order_example : After bytes 0 (run bytes three_reads ([], from_std))
run-reads_in_order_example = run-reads_in_order bytes three_reads 0 from_std from_std-At

poll_seek-SeeksTo_example :
    Returns
      (SeeksTo bytes 0 (end (backward 1)))
      (poll_seek 5 (end (backward 1)) (some none) bytes from_std)
unfolding from_std
poll_seek-SeeksTo_example =
    poll_seek-SeeksTo 5 0 (end (backward 1)) (some none) bytes from_std refl refl refl from_std-At

abbrev after_write : File
after_write = record {
  pos = 2;
  read_busy = none;
  read_leftover = [];
  write_busy = none;
  seek_busy = none;
}

abbrev written : List ℕ
written = 7 ∷ 8 ∷ 30 ∷ 40 ∷ []

abbrev got : List ℕ
got = (run written three_reads ([], record after_write { pos = 0 })).0

poll_read-before_seek_example :
    let f : File = record after_write { read_busy = some (over (ok (10 ∷ 20 ∷ [])) none) } in
    let g : File = record f { pos = 3; read_leftover = [] } in
    (poll_seek 5 (start 3) none bytes f ≡ some (ready (ok 3), g))
    × (poll_read 5 1 none bytes g
        ≡ some
            (ready (ok (10 ∷ [])), record g { pos = 5; read_busy = none; read_leftover = 20 ∷ [] }))
poll_read-before_seek_example =
    poll_read-before_seek 5 bytes 2 3 1 10 (20 ∷ []) [] none none none none
