-- ===== src/Io/FileProxy/Tests.antt =====
-- Runs of a proxy of rust_io/file_proxy.rs.
use rust_base.Base.{◌≡◌, refl, true, false, none, some, List, [], ◌∷◌}
use rust_base.Io.Disk.{ok, overwrite}
use rust_base.Io.FileProxy.{
  read, write, append, bytes, count, limit, new, Event, asks, runs, calls, run, blocking_pread,
  blocking_pwrite,
}
use rust_base.Io.FileProxy.History.{Explained, run-Explained}

-- A file that is created, appended to, and read, while the answers come late, one closure is refused, and
-- the last one is run too early.
abbrev ops : List Event
ops =
    asks true (write 0 (7 ∷ 8 ∷ []))
    ∷ asks true (append (9 ∷ []))
    ∷ runs 0 (limit 9) true
    ∷ asks false (append (5 ∷ []))
    ∷ asks true (read 1 5)
    ∷ runs 1 (limit 9) true
    ∷ calls
    ∷ runs 0 (limit 9) false
    ∷ calls
    ∷ calls
    ∷ []

ops_lem : (run ops (new none)).called ≡ (0, count (ok 2)) ∷ (3, bytes (ok (8 ∷ []))) ∷ []
unfolding run new blocking_pread overwrite
ops_lem = refl

-- A write of no byte past the end.
no_byte : blocking_pwrite (limit 9) 3 [] (some (1 ∷ [])) ≡ (ok 0, some (1 ∷ []))
unfolding blocking_pwrite
no_byte = refl

run-Explained_example : Explained none (run ops (new none))
run-Explained_example = run-Explained none ops
