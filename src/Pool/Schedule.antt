-- ===== src/Pool/Schedule.antt =====
-- What can happen next in a pool and around it, as events that a schedule lists.
use rust_base.Base.{ℕ, zero, suc, ◌+◌, Option, none, some, List, [], ◌∷◌}
use rust_base.DelayedTaskManager
use rust_base.DelayedTaskManager.{DelayedTaskManager, TimerAction}
use rust_base.Task.{TaskTraits}
use rust_base.Pool.Callback.{Body}
use rust_base.Pool.Post.{
  post_task, post_delayed_task, parallel_post_task, parallel_post_delayed_task,
  create_sequenced_task_runner, runner_post_task, runner_post_delayed_task,
}
use rust_base.Pool.Worker.{worker_step}
use rust_base.Pool.Shutdown.{shutdown_step}
use rust_base.Pool.{System, push_source}

pub data Event : Type 0 where
  advance : ℕ → Event  -- time passes
  post : TaskTraits → Body → Event
  post_delayed : TaskTraits → Body → ℕ → Event
  parallel_post : TaskTraits → Body → Event
  parallel_post_delayed : TaskTraits → Body → ℕ → Event
  create_runner : TaskTraits → Event
  runner_post : ℕ → Body → Event
  runner_post_delayed : ℕ → Body → ℕ → Event
  deliver : ℕ → Event  -- a call of `push_task_source` that some thread was about to make
  deliver_delayed : ℕ → Event  -- such a call of `add_sequence`
  work : ℕ → Event  -- a step of a worker
  timer : Event  -- a round of the timer thread
  shutdown : Event  -- a step of the thread in `shutdown`

-- The entry at a position, and the others.
unfoldable pub extract {ℓ} : {A : Type ℓ} → ℕ → List A → Option (A × List A)
extract n [] = none
extract zero (x ∷ xs) = some (x, xs)
extract (suc n) (x ∷ xs) = elim (extract n xs) [ none ↦ none | some (y, rest) ↦ some (y, x ∷ rest) ]

unfoldable pub deliver_source : System → Option (ℕ × List ℕ) → System
unfolding push_source
deliver_source s none = s
deliver_source s (some (t, rest)) = push_source t (record s { in_flight = rest })

unfoldable pub deliver_entry : System → Option ((ℕ × ℕ) × List (ℕ × ℕ)) → System
unfolding DelayedTaskManager.add_sequence
deliver_entry s none = s
deliver_entry s (some ((ready_time, t), rest)) = record s {
  in_flight_delayed = rest;
  next_entry_id = s.next_entry_id + 1;
  delayed = DelayedTaskManager.add_sequence s.next_entry_id ready_time t s.delayed;
}

-- The timer thread releases its mutex before it calls `push_task_source`.
unfoldable pub timer_step : System → TimerAction × DelayedTaskManager → System
timer_step s (TimerAction.fire e, m) = record s {
  delayed = m;
  in_flight = e.sequence ∷ s.in_flight;
}
timer_step s (_, m) = s

unfoldable pub apply : Event → System → System
unfolding deliver_source deliver_entry timer_step shutdown_step worker_step extract
apply (advance d) s = record s { clock = s.clock + d }
apply (post traits b) s = (post_task traits b s).1
apply (post_delayed traits b delay) s = (post_delayed_task traits b delay s).1
apply (parallel_post traits b) s = (parallel_post_task traits b s).1
apply (parallel_post_delayed traits b delay) s = (parallel_post_delayed_task traits b delay s).1
apply (create_runner traits) s = create_sequenced_task_runner traits s
apply (runner_post t b) s = (runner_post_task t b s).1
apply (runner_post_delayed t b delay) s = (runner_post_delayed_task t b delay s).1
apply (deliver n) s = deliver_source s (extract n s.in_flight)
apply (deliver_delayed n) s = deliver_entry s (extract n s.in_flight_delayed)
apply (work i) s = worker_step i (s.workers i) s
apply timer s = timer_step s (DelayedTaskManager.timer_round s.clock s.delayed)
apply shutdown s = shutdown_step s.phase s

unfoldable pub run : List Event → System → System
unfolding apply
run [] s = s
run (e ∷ es) s = run es (apply e s)
