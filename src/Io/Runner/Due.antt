-- ===== src/Io/Runner/Due.antt =====
-- No delayed task of rust_io/io_task_runner.rs runs early.
use rust_base.Base.{
  ℕ, ◌≤◌, ◌≡◌, ◌⊎◌, refl, Bool, true, Option, none, some, List, [], ◌∷◌, arith, Bool-cases,
  Option-cases, inl, inr, leb, All,
}
use rust_base.Base.Heap
use rust_base.Base.Heap.Laws.{peek-eq-some}
use rust_base.Io.Runner.{
  IoTaskRunner, Thread, draining, draining_delayed, waiting, dispatching, Shutdown, joining, Post,
  immediate, delayed, DelayedTask, Event, advance, posts, pushing, signals, stops, io, Wait, ready,
  interrupted, failed, new_runner, post, push, pushes, signal, shutdown_step, drain, drain_delayed,
  pop_due, waited, dispatch_step, thread_step, step, run, delayed_ord,
}
use rust_base.Io.Pump.{Flags, Callback}
use rust_base.Pool.Schedule.{extract}

abbrev InTime : IoTaskRunner → Type 0
InTime r = All (λ p. p.0.deadline ≤ p.1) r.executed_delayed

module _ (r : IoTaskRunner) (h : InTime r) where
  pushes-InTime : (o : Option (Post × List Post)) → InTime (pushes r o)
  unfolding pushes push
  pushes-InTime none = h
  pushes-InTime (some (immediate c, rest)) = h
  pushes-InTime (some (delayed c delay, rest)) = h

  -- The task that is popped is the one that was seen to be due.
  drain_delayed-InTime :
      (o : Option DelayedTask) → Heap.peek r.delayed_tasks ≡ o → InTime (drain_delayed r o)
  unfolding drain_delayed pop_due
  drain_delayed-InTime none e = h
  drain_delayed-InTime (some d) e = elim (Bool-cases (leb d.deadline r.clock)) [
    | inl due ↦ rw due (popped due (Option-cases (Heap.pop r.delayed_tasks)))
    | inr early ↦ rw early h
  ]
    where
      popped :
          leb d.deadline r.clock ≡ true
          → (Heap.pop r.delayed_tasks ≡ none)
            ⊎ ((q : DelayedTask × List DelayedTask) × (Heap.pop r.delayed_tasks ≡ some q))
          → InTime (pop_due r (Heap.pop r.delayed_tasks))
      popped due (inl p) = rw p h
      popped due (inr ((m, rest), p)) =
          let same : m ≡ d = ground (arith, peek-eq-some r.delayed_tasks p) in
          rw p (ground (arith, due), h)

  dispatch_step-InTime :
      (alive : ℕ → Bool) (events : List (ℕ × Flags)) (calls : List Callback)
      → InTime (dispatch_step alive events calls r)
  unfolding dispatch_step
  dispatch_step-InTime alive events (c ∷ calls) = h
  dispatch_step-InTime alive [] [] = h
  dispatch_step-InTime alive ((fd, f) ∷ events) [] = h

  waited-InTime : (w : Wait) → InTime (waited w r)
  unfolding waited
  waited-InTime (ready events) = h
  waited-InTime interrupted = h
  waited-InTime failed = h

  drain-InTime : (tasks : List ℕ) → InTime (drain tasks r)
  unfolding drain
  drain-InTime [] = h
  drain-InTime (c ∷ tasks) = h

  thread_step-InTime : (w : Wait) (alive : ℕ → Bool) (t : Thread) → InTime (thread_step w alive t r)
  unfolding thread_step
  thread_step-InTime w alive draining = drain-InTime r.tasks
  thread_step-InTime w alive draining_delayed =
      drain_delayed-InTime (Heap.peek r.delayed_tasks) refl
  thread_step-InTime w alive (waiting u) = waited-InTime w
  thread_step-InTime w alive (dispatching events calls) = dispatch_step-InTime alive events calls
  thread_step-InTime w alive _ = h

  shutdown_step-InTime : (s : Shutdown) → InTime (shutdown_step s r)
  unfolding shutdown_step
  shutdown_step-InTime joining = ground arith
  shutdown_step-InTime _ = h

  step-InTime : (e : Event) → InTime (step e r)
  unfolding step post signal
  step-InTime (advance d) = h
  step-InTime (posts p) = ground arith
  step-InTime (pushing n) = pushes-InTime (extract n r.posts)
  step-InTime signals = ground arith
  step-InTime stops = shutdown_step-InTime r.stopping
  step-InTime (io w alive) = thread_step-InTime w alive r.thread

run-InTime : (es : List Event) (r : IoTaskRunner) → InTime r → InTime (run es r)
unfolding run
run-InTime [] r h = h
run-InTime (e ∷ es) r h = run-InTime es (step e r) (step-InTime r h e)

-- Whatever the schedule, no delayed task is taken out to run before its deadline.
pub run-due :
    (es : List Event) (wake_fd : ℕ)
    → All (λ p. p.0.deadline ≤ p.1) (run es (new_runner wake_fd)).executed_delayed
run-due es wake_fd = run-InTime es (new_runner wake_fd) (unfold new_runner in tt)
