-- ===== src/Async/Stdio/Tests.antt =====
-- Runs of the standard input of rust_async/io.rs.
use rust_base.Base.{ℕ, ◌≡◌, refl, none, some, List, [], ◌∷◌, ◌++◌}
use rust_base.Io.Disk.{limit, failed}
use rust_base.Async.Stdio.{stdin, read_with, read, left_by, answer_of}
use rust_base.Async.Stdio.Input.{busy_bytes}
use rust_base.Async.Stdio.Order.{Event, polls, runs, run, run-whole_input}

-- A poll that waits, a smaller buffer, a failed read, and one that is answered at once.
abbrev reads : List Event
reads =
    polls 1 3 none
    ∷ runs (limit 1)
    ∷ polls 2 1 none
    ∷ polls 1 9 none
    ∷ polls 1 9 (some (failed 4))
    ∷ polls 1 9 (some (limit 0))
    ∷ []

abbrev typed : List ℕ
typed = 65 ∷ 66 ∷ 67 ∷ 68 ∷ []

reads_lem : (run reads ([], (typed, stdin))).0 ≡ 65 ∷ 66 ∷ 67 ∷ []
unfolding run stdin read_with read left_by answer_of
reads_lem = refl

run-whole_input_example :
    let w = run reads ([], (typed, stdin)) in
    w.0 ++ (w.1.1.leftover ++ (busy_bytes w.1.1.busy ++ w.1.0)) ≡ typed
run-whole_input_example = run-whole_input typed reads
