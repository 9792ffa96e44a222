-- ===== src/Pool/Exclusion/Reach.antt =====
-- Every event, and so every schedule, keeps the ownership of the sequences exclusive.
use rust_base.Base.{ℕ, refl, Bool, Option, none, some, List, [], ◌∷◌, arith}
use rust_base.DelayedTaskManager
use rust_base.DelayedTaskManager.{DelayedTaskManager, TimerAction}
use rust_base.Pool.Post.{parallel_post_task, parallel_post_delayed_task}
use rust_base.Pool.Cases.{post_task-cases, post_delayed_task-cases}
use rust_base.Pool.Shutdown.{shutdown_step}
use rust_base.Pool.Schedule.{
  Event, advance, post, post_delayed, parallel_post, parallel_post_delayed, create_runner,
  runner_post, runner_post_delayed, deliver, deliver_delayed, work, timer, shutdown, extract,
  deliver_source, deliver_entry, timer_step, apply, run,
}
use rust_base.Pool.{Phase, not_called, waiting, drained, joining, stopped, System, new_pool}
use rust_base.Pool.InRange.Reach.{apply-InRange, new_pool-InRange}
use rust_base.Pool.Exclusion.{IsExclusive}
use rust_base.Pool.Exclusion.Step.{
  Change, same, Change-IsExclusive, unchanged, one_shot-Change, one_shot_delayed-Change,
  create-Change, runner_post_task-Change, runner_post_delayed_task-Change, worker_step-Change,
}

deliver_source-Change : (s : System) (o : Option (ℕ × List ℕ)) → Change s (deliver_source s o)
unfolding deliver_source
deliver_source-Change s none = unchanged s
deliver_source-Change s (some (t, rest)) = same (omega arith) (λ u. refl) (λ j. refl)

deliver_entry-Change :
    (s : System) (o : Option ((ℕ × ℕ) × List (ℕ × ℕ))) → Change s (deliver_entry s o)
unfolding deliver_entry
deliver_entry-Change s none = unchanged s
deliver_entry-Change s (some ((ready_time, t), rest)) = same (omega arith) (λ u. refl) (λ j. refl)

timer_step-Change : (s : System) (r : TimerAction × DelayedTaskManager) → Change s (timer_step s r)
unfolding timer_step
timer_step-Change s (TimerAction.fire e, m) = same (omega arith) (λ u. refl) (λ j. refl)
timer_step-Change s (_, m) = unchanged s

shutdown_step-Change : (s : System) (p : Phase) → Change s (shutdown_step p s)
unfolding shutdown_step
shutdown_step-Change s not_called = same (omega arith) (λ u. refl) (λ j. refl)
shutdown_step-Change s waiting = same (ground arith) (λ u. ground arith) (λ j. ground arith)
shutdown_step-Change s drained = same (omega arith) (λ u. refl) (λ j. refl)
shutdown_step-Change s joining = same (ground arith) (λ u. ground arith) (λ j. ground arith)
shutdown_step-Change s stopped = unchanged s

apply-Change : (e : Event) (s : System) → IsExclusive s → Change s (apply e s)
unfolding apply parallel_post_task parallel_post_delayed_task
apply-Change (advance d) s x = same (omega arith) (λ u. refl) (λ j. refl)
apply-Change (post traits b) s x =
    post_task-cases (Change s) s traits b (λ t. same (omega arith) (λ u. refl) (λ j. refl))
      (λ t c. one_shot-Change s (x.fresh s.next_token (omega arith)) traits c t)
apply-Change (post_delayed traits b delay) s x =
    post_delayed_task-cases (Change s) s traits b delay
      (λ t. same (omega arith) (λ u. refl) (λ j. refl))
      (λ t c. one_shot_delayed-Change s (x.fresh s.next_token (omega arith)) traits c delay t)
apply-Change (parallel_post traits b) s x =
    one_shot-Change s (x.fresh s.next_token (omega arith)) traits _ s.tracker
apply-Change (parallel_post_delayed traits b delay) s x =
    one_shot_delayed-Change s (x.fresh s.next_token (omega arith)) traits _ delay s.tracker
apply-Change (create_runner traits) s x =
    create-Change s (x.fresh s.next_token (omega arith)) traits
apply-Change (runner_post t b) s x = runner_post_task-Change s t b
apply-Change (runner_post_delayed t b delay) s x = runner_post_delayed_task-Change s t b delay
apply-Change (deliver n) s x = deliver_source-Change s (extract n s.in_flight)
apply-Change (deliver_delayed n) s x = deliver_entry-Change s (extract n s.in_flight_delayed)
apply-Change (work i) s x = worker_step-Change s x.range i (s.workers i) refl
apply-Change timer s x = timer_step-Change s (DelayedTaskManager.timer_round s.clock s.delayed)
apply-Change shutdown s x = shutdown_step-Change s s.phase

pub apply-IsExclusive : (e : Event) (s : System) → IsExclusive s → IsExclusive (apply e s)
apply-IsExclusive e s x = Change-IsExclusive (apply-Change e s x) (apply-InRange e s x.range) x

pub run-IsExclusive : (es : List Event) (s : System) → IsExclusive s → IsExclusive (run es s)
unfolding run
run-IsExclusive [] s x = x
run-IsExclusive (e ∷ es) s x = run-IsExclusive es (apply e s) (apply-IsExclusive e s x)

pub new_pool-IsExclusive : (n : ℕ) (monitored : Bool) → IsExclusive (new_pool n monitored)
unfolding new_pool
new_pool-IsExclusive n monitored = record {
  range = new_pool-InRange n monitored;
  exclusion = record {
    owned = λ i t e. cc;
    unique = λ i j t e f. cc;
    flagged = λ t e. absurd (ground arith);
  };
  fresh = λ t k. refl;
}
