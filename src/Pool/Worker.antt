-- ===== src/Pool/Worker.antt =====
-- The loop of a worker, rust_task/thread_pool/thread_group.rs, a shared access at a time.
use rust_base.Base.{ℕ, Bool, Option, none, some, List, [], ◌∷◌, if◌then◌else◌, ◌&&◌}
use rust_base.Sequence
use rust_base.Sequence.{Sequence, RunStatus}
use rust_base.Task.{Task, is_skip_on_shutdown}
use rust_base.TaskTracker
use rust_base.TaskTracker.{TaskTracker}
use rust_base.ThreadGroup
use rust_base.ThreadGroup.{ThreadGroup, Work}
use rust_base.Pool.Callback.{Closure, Instr, call, report, post_reply, check, after, steps}
use rust_base.Pool.Post.{runner_post_task}
use rust_base.Pool.{
  Pc, idle, exited, got, claimed, running, finished, checking, requeue, panicked, System,
  set_sequence, set_worker, push_source,
}

unfoldable pub take_work : ℕ → System → Work × ThreadGroup → System
unfolding set_worker
take_work i s (Work.leave, g) = set_worker i exited s
take_work i s (Work.wait, g) = s
take_work i s (Work.run t, g) = set_worker i (got t) (record s { group = g })

unfoldable pub claim : ℕ → ℕ → System → RunStatus × Sequence Closure → System
unfolding set_worker set_sequence
claim i t s (RunStatus.disallowed, q) = set_worker i idle (set_sequence t q s)
claim i t s (_, q) = set_worker i (claimed t) (set_sequence t q s)

unfoldable pub start_task : ℕ → ℕ → System → Option (Task Closure) × Sequence Closure → System
unfolding set_worker set_sequence
start_task i t s (none, q) = set_worker i (finished t) (set_sequence t q s)
start_task i t s (some task, q) =
    set_worker i (running t (steps task.callback)) (set_sequence t q s)

unfoldable pub finish_guarded : ℕ → ℕ → List Instr → System → Option (TaskTracker × Bool) → System
unfolding set_worker
finish_guarded i t rest s none = set_worker i (panicked t) s
finish_guarded i t rest s (some (tracker, notified)) =
    set_worker i (running t rest) (record s { tracker = tracker })

-- One instruction of the callback that worker `i` runs for the sequence `t`.
unfoldable pub run_instr : ℕ → ℕ → List Instr → System → System
unfolding set_worker runner_post_task TaskTracker.is_shutdown_started finish_guarded
run_instr i t [] s = set_worker i (finished t) s
run_instr i t (call f ∷ rest) s = set_worker i (running t rest) (record s { log = (t, f) ∷ s.log })
run_instr i t (report ∷ rest) s = set_worker i (running t rest) s
run_instr i t (post_reply r b ∷ rest) s = set_worker i (running t rest) (runner_post_task r b s).1
run_instr i t (check traits ∷ rest) s =
    if TaskTracker.is_shutdown_started s.tracker && is_skip_on_shutdown traits.shutdown_behavior
    then set_worker i (running t []) s
    else set_worker i (running t rest) s
run_instr i t (after traits ∷ rest) s =
    finish_guarded i t rest s (TaskTracker.after_run_task traits s.tracker)

unfoldable pub worker_step : ℕ → Pc → System → System
unfolding take_work claim start_task run_instr set_worker set_sequence push_source
worker_step i idle s = take_work i s (ThreadGroup.get_work s.group)
worker_step i exited s = s
worker_step i (got t) s = claim i t s (Sequence.will_run_task (s.sequences t))
worker_step i (claimed t) s = start_task i t s (Sequence.take_task s.clock (s.sequences t))
worker_step i (running t todo) s = run_instr i t todo s
worker_step i (finished t) s =
    set_worker i (checking t) (set_sequence t (Sequence.clear_worker (s.sequences t)) s)
worker_step i (checking t) s =
    if Sequence.has_ready_tasks s.clock (s.sequences t)
    then set_worker i (requeue t) s
    else set_worker i idle s
worker_step i (requeue t) s = set_worker i idle (push_source t s)
worker_step i (panicked t) s = s
