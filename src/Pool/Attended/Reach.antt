-- ===== src/Pool/Attended/Reach.antt =====
-- Every event, and so every schedule, leaves every sequence attended.
use rust_base.Base.{ℕ, refl, Bool, List, [], ◌∷◌, arith}
use rust_base.PriorityQueue.{entry_ord}
use rust_base.DelayedTaskManager
use rust_base.DelayedTaskManager.{DelayedEntry, DelayedTaskManager, TimerAction, delayed_entry_ord}
use rust_base.DelayedTaskManager.Fired.{timer_round-Split}
use rust_base.DelayedTaskManager.Deadline.{timer_round-RoundOf}
use rust_base.Sequence
use rust_base.Sequence.{Entry}
use rust_base.Pool.Post.{parallel_post_task, parallel_post_delayed_task}
use rust_base.Pool.Cases.{post_task-cases, post_delayed_task-cases}
use rust_base.Pool.Schedule.{
  Event, advance, post, post_delayed, parallel_post, parallel_post_delayed, create_runner,
  runner_post, runner_post_delayed, deliver, deliver_delayed, work, timer, shutdown, extract, apply,
  run,
}
use rust_base.Pool.{System, new_pool}
use rust_base.Pool.Exclusion.{IsExclusive}
use rust_base.Pool.Exclusion.Reach.{apply-IsExclusive}
use rust_base.Pool.Attended.{Attended, resting}
use rust_base.Pool.Attended.Post.{
  one_shot-Attended, one_shot_delayed-Attended, create-Attended, runner_post_task-Attended,
  runner_post_delayed_task-Attended,
}
use rust_base.Pool.Attended.Instr.{worker_step-Attended}
use rust_base.Pool.Attended.Step.{
  extract-Extracted, beside-Attended, deliver_source-Attended, deliver_entry-Attended,
  timer_step-Attended, shutdown_step-Attended,
}

apply-Attended :
    (e : Event) (s : System)
    → IsExclusive s
    → ((t : ℕ) → Attended s t)
    → (t : ℕ) → Attended (apply e s) t
unfolding apply parallel_post_task parallel_post_delayed_task
apply-Attended (advance d) s x a u =
    beside-Attended s a _ refl refl refl refl refl refl (omega arith) u
apply-Attended (post traits b) s x a u =
    post_task-cases (λ s'. Attended s' u) s traits b
      (λ k. beside-Attended s a _ refl refl refl refl refl refl (omega arith) u)
      (λ k c. one_shot-Attended s a traits c k u)
apply-Attended (post_delayed traits b delay) s x a u =
    post_delayed_task-cases (λ s'. Attended s' u) s traits b delay
      (λ k. beside-Attended s a _ refl refl refl refl refl refl (omega arith) u)
      (λ k c. one_shot_delayed-Attended s a traits c delay k u)
apply-Attended (parallel_post traits b) s x a u = one_shot-Attended s a traits _ s.tracker u
apply-Attended (parallel_post_delayed traits b delay) s x a u =
    one_shot_delayed-Attended s a traits _ delay s.tracker u
apply-Attended (create_runner traits) s x a u = create-Attended s a traits u
apply-Attended (runner_post t b) s x a u = runner_post_task-Attended s a t b u
apply-Attended (runner_post_delayed t b delay) s x a u =
    runner_post_delayed_task-Attended s a t b delay u
apply-Attended (deliver n) s x a u =
    deliver_source-Attended s a (extract n s.in_flight) (extract-Extracted n s.in_flight) u
apply-Attended (deliver_delayed n) s x a u =
    deliver_entry-Attended s a (extract n s.in_flight_delayed)
      (extract-Extracted n s.in_flight_delayed) u
apply-Attended (work i) s x a u = worker_step-Attended s a x.exclusion i (s.workers i) refl u
apply-Attended timer s x a u =
    timer_step-Attended s a (DelayedTaskManager.timer_round s.clock s.delayed)
      (timer_round-RoundOf s.clock s.delayed) (λ P. timer_round-Split P s.clock s.delayed) u
apply-Attended shutdown s x a u = shutdown_step-Attended s a s.phase u

pub events-Attended :
    (es : List Event) (s : System)
    → IsExclusive s
    → ((t : ℕ) → Attended s t)
    → (t : ℕ) → Attended (run es s) t
unfolding run
events-Attended [] s x a = a
events-Attended (e ∷ es) s x a =
    events-Attended es (apply e s) (apply-IsExclusive e s x) (apply-Attended e s x a)

pub new_pool-Attended : (n : ℕ) (monitored : Bool) (t : ℕ) → Attended (new_pool n monitored) t
unfolding new_pool Sequence.new
new_pool-Attended n monitored t = resting refl tt
