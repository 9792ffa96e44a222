-- ===== src/Io/Runner/Order.antt =====
-- The order of the tasks of rust_io/io_task_runner.rs.
use rust_base.Base.{
  ℕ, ◌≡◌, refl, sym, ap, ◌∙◌, Bool, Option, none, some, List, [], ◌∷◌, ◌++◌, append_assoc, arith,
}
use rust_base.Base.Heap
use rust_base.Io.Runner.{
  IoTaskRunner, Thread, draining, draining_delayed, sizing, testing, waiting, dispatching, exited,
  Shutdown, joining, Post, immediate, delayed, DelayedTask, Event, advance, posts, pushing, signals,
  stops, io, Wait, ready, interrupted, failed, new_runner, post, push, pushes, signal,
  shutdown_step, drain, drain_delayed, pop_due, waited, dispatch_step, thread_step, step, run,
  delayed_ord,
}
use rust_base.Io.Pump.{Flags, Callback}
use rust_base.Pool.Schedule.{extract}

abbrev InOrder : IoTaskRunner → Type 0
InOrder r = r.executed ++ r.tasks ≡ r.pushed

pushes-InOrder :
    (r : IoTaskRunner) (o : Option (Post × List Post)) → InOrder r → InOrder (pushes r o)
unfolding pushes push
pushes-InOrder r none h = h
pushes-InOrder r (some (immediate c, rest)) h =
    sym (append_assoc r.executed r.tasks (c ∷ [])) ∙ ap (λ xs. xs ++ c ∷ []) h
pushes-InOrder r (some (delayed c delay, rest)) h = h

signal-InOrder : (r : IoTaskRunner) → InOrder r → InOrder (signal r)
unfolding signal
signal-InOrder r h = ground arith

shutdown_step-InOrder : (s : Shutdown) (r : IoTaskRunner) → InOrder r → InOrder (shutdown_step s r)
unfolding shutdown_step
shutdown_step-InOrder joining r h = ground arith
shutdown_step-InOrder _ r h = h

drain-InOrder :
    (r : IoTaskRunner) (tasks : List ℕ) → r.tasks ≡ tasks → InOrder r → InOrder (drain tasks r)
unfolding drain
drain-InOrder r [] e h = h
drain-InOrder r (c ∷ tasks) e h =
    append_assoc r.executed (c ∷ []) tasks ∙ ap (λ xs. r.executed ++ xs) (sym e) ∙ h

drain_delayed-InOrder :
    (r : IoTaskRunner) (o : Option DelayedTask) → InOrder r → InOrder (drain_delayed r o)
unfolding drain_delayed pop_due
drain_delayed-InOrder r none h = h
drain_delayed-InOrder r (some d) h = ground arith

dispatch_step-InOrder :
    (alive : ℕ → Bool) (events : List (ℕ × Flags)) (calls : List Callback) (r : IoTaskRunner)
    → InOrder r
    → InOrder (dispatch_step alive events calls r)
unfolding dispatch_step
dispatch_step-InOrder alive events (c ∷ calls) r h = h
dispatch_step-InOrder alive [] [] r h = h
dispatch_step-InOrder alive ((fd, f) ∷ events) [] r h = h

waited-InOrder : (w : Wait) (r : IoTaskRunner) → InOrder r → InOrder (waited w r)
unfolding waited
waited-InOrder (ready events) r h = h
waited-InOrder interrupted r h = h
waited-InOrder failed r h = h

thread_step-InOrder :
    (w : Wait) (alive : ℕ → Bool) (t : Thread) (r : IoTaskRunner)
    → InOrder r
    → InOrder (thread_step w alive t r)
unfolding thread_step
thread_step-InOrder w alive draining r h = drain-InOrder r r.tasks refl h
thread_step-InOrder w alive draining_delayed r h =
    drain_delayed-InOrder r (Heap.peek r.delayed_tasks) h
thread_step-InOrder w alive sizing r h = h
thread_step-InOrder w alive (testing d) r h = h
thread_step-InOrder w alive (waiting u) r h = waited-InOrder w r h
thread_step-InOrder w alive (dispatching events calls) r h =
    dispatch_step-InOrder alive events calls r h
thread_step-InOrder w alive exited r h = h

step-InOrder : (e : Event) (r : IoTaskRunner) → InOrder r → InOrder (step e r)
unfolding step post
step-InOrder (advance d) r h = h
step-InOrder (posts p) r h = ground arith
step-InOrder (pushing n) r h = pushes-InOrder r (extract n r.posts) h
step-InOrder signals r h = signal-InOrder r h
step-InOrder stops r h = shutdown_step-InOrder r.stopping r h
step-InOrder (io w alive) r h = thread_step-InOrder w alive r.thread r h

run-InOrder : (es : List Event) (r : IoTaskRunner) → InOrder r → InOrder (run es r)
unfolding run
run-InOrder [] r h = h
run-InOrder (e ∷ es) r h = run-InOrder es (step e r) (step-InOrder e r h)

-- Whatever the schedule, the tasks that the IO thread has run, followed by those in its queue, are those
-- that were pushed, in the order of the pushes: none is lost, none runs twice or before an earlier one.
pub run-executed :
    (es : List Event) (wake_fd : ℕ)
    → let r = run es (new_runner wake_fd) in r.executed ++ r.tasks ≡ r.pushed
run-executed es wake_fd = run-InOrder es (new_runner wake_fd) (unfold new_runner in refl)
