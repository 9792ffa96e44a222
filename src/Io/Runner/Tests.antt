-- ===== src/Io/Runner/Tests.antt =====
-- Runs of the task runner of rust_io/io_task_runner.rs.
use rust_base.Base.{◌≤◌, ◌≡◌, ◌⊎◌, refl, true, false, none, List, [], ◌∷◌, All}
use rust_base.Io.Runner.{
  waiting, Event, advance, posts, pushing, signals, io, ready, immediate, delayed, new_runner, run,
}
use rust_base.Io.Runner.Awake.{run-awake}
use rust_base.Io.Runner.Due.{run-due}
use rust_base.Io.Runner.Signals.{Signalled, Expired, Covers}

abbrev thread : Event
thread = io (ready []) (λ i. true)

-- The thread blocks, and then a task is pushed.
abbrev pushed_late : List Event
pushed_late = thread ∷ thread ∷ thread ∷ thread ∷ posts (immediate 7) ∷ pushing 0 ∷ []

pushed_late-waiting : (run pushed_late (new_runner 9)).thread ≡ waiting none
unfolding run new_runner
pushed_late-waiting = refl

run-awake_example :
    let r = run pushed_late (new_runner 9) in
    ((r.tasks ≡ []) ⊎ Signalled r)
    × (Expired none r.clock ⊎ (Covers none r.delayed_tasks ⊎ Signalled r))
    × ((r.pump.quit ≡ false) ⊎ Signalled r)
run-awake_example = run-awake pushed_late 9 none pushed_late-waiting

abbrev two_tasks : List Event
two_tasks =
    posts (immediate 7) ∷ pushing 0 ∷ posts (immediate 8) ∷ pushing 0 ∷ signals ∷ thread ∷ []

two_tasks-run : (run two_tasks (new_runner 9)).executed ≡ 7 ∷ []
unfolding run new_runner
two_tasks-run = refl

abbrev one_delayed : List Event
one_delayed = posts (delayed 7 20) ∷ pushing 0 ∷ advance 30 ∷ thread ∷ thread ∷ thread ∷ []

run-due_example : All (λ p. p.0.deadline ≤ p.1) (run one_delayed (new_runner 9)).executed_delayed
run-due_example = run-due one_delayed 9
