-- ===== src/Pool/InRange/Reach.antt =====
-- Every event keeps the tokens in use among those that were given out.
use rust_base.Base.{ℕ, ◌<◌, ◌≡◌, refl, Bool, Option, none, some, List, inl, inr, Bool-cases}
use rust_base.DelayedTaskManager.{DelayedTaskManager, TimerAction}
use rust_base.DelayedTaskManager.Fired.{Split, timer_round-Split}
use rust_base.TaskTracker
use rust_base.Pool.Post.{parallel_post_task, parallel_post_delayed_task}
use rust_base.Pool.Cases.{post_task-cases, post_delayed_task-cases}
use rust_base.Pool.Shutdown.{all_exited, shutdown_step}
use rust_base.Pool.Schedule.{
  Event, advance, post, post_delayed, parallel_post, parallel_post_delayed, create_runner,
  runner_post, runner_post_delayed, deliver, deliver_delayed, work, timer, shutdown, deliver_source,
  deliver_entry, timer_step, apply,
}
use rust_base.Pool.{Phase, not_called, waiting, drained, joining, stopped, System, new_pool}
use rust_base.Pool.InRange.{
  InRange, one_shot-InRange, one_shot_delayed-InRange, create-InRange, tracker-InRange,
  runner_post_task-InRange, runner_post_delayed_task-InRange, push_source-InRange,
}
use rust_base.Pool.InRange.Step.{worker_step-InRange, Extracted, extract-Extracted}

same-InRange :
    (s s' : System)
    → InRange s
    → s'.next_token ≡ s.next_token
    → s'.group.priority_queue ≡ s.group.priority_queue
    → s'.delayed.heap ≡ s.delayed.heap
    → s'.in_flight ≡ s.in_flight
    → s'.in_flight_delayed ≡ s.in_flight_delayed
    → s'.workers ≡ s.workers
    → InRange s'
same-InRange s s' h n g d f fd w = record {
  queued = rw (n, g) h.queued;
  flying = rw (n, f) h.flying;
  waiting = rw (n, d) h.waiting;
  flying_delayed = rw (n, fd) h.flying_delayed;
  held = λ i t. rw (n, w) (h.held i t);
}

shutdown_step-InRange : (s : System) (p : Phase) → InRange s → InRange (shutdown_step p s)
unfolding shutdown_step
shutdown_step-InRange s not_called h = same-InRange s _ h refl refl refl refl refl refl
shutdown_step-InRange s waiting h = elim (Bool-cases (TaskTracker.may_return s.tracker)) [
  | inl e ↦ rw (e, shutdown_step) (same-InRange s _ h refl refl refl refl refl refl)
  | inr e ↦ rw (e, shutdown_step) h
]
shutdown_step-InRange s drained h = same-InRange s _ h refl refl refl refl refl refl
shutdown_step-InRange s joining h = elim (Bool-cases (all_exited s.threads s.workers)) [
  | inl e ↦ rw (e, shutdown_step) (same-InRange s _ h refl refl refl refl refl refl)
  | inr e ↦ rw (e, shutdown_step) h
]
shutdown_step-InRange s stopped h = h

deliver_source-InRange :
    (s : System) (o : Option (ℕ × List ℕ))
    → InRange s
    → Extracted (λ t. t < s.next_token) o
    → InRange (deliver_source s o)
unfolding deliver_source
deliver_source-InRange s none h k = h
deliver_source-InRange s (some (t, rest)) h k =
    push_source-InRange (record s { in_flight = rest })
      (record {
        queued = h.queued;
        flying = k.1;
        waiting = h.waiting;
        flying_delayed = h.flying_delayed;
        held = h.held;
      })
      t k.0

deliver_entry-InRange :
    (s : System) (o : Option ((ℕ × ℕ) × List (ℕ × ℕ)))
    → InRange s
    → Extracted (λ p. p.1 < s.next_token) o
    → InRange (deliver_entry s o)
unfolding deliver_entry
deliver_entry-InRange s none h k = h
deliver_entry-InRange s (some ((ready_time, t), rest)) h k = record {
  queued = h.queued;
  flying = h.flying;
  waiting = (k.0, h.waiting);
  flying_delayed = k.1;
  held = h.held;
}

timer_step-InRange :
    (s : System) (r : TimerAction × DelayedTaskManager)
    → InRange s
    → Split (λ e. e.value.sequence < s.next_token) s.delayed r
    → InRange (timer_step s r)
unfolding timer_step
timer_step-InRange s (TimerAction.fire e, m) h k =
    let (first, rest) = k.0 h.waiting in
    record {
      queued = h.queued;
      flying = (first, h.flying);
      waiting = rest;
      flying_delayed = h.flying_delayed;
      held = h.held;
    }
timer_step-InRange s (TimerAction.quit, m) h k = h
timer_step-InRange s (TimerAction.wait, m) h k = h
timer_step-InRange s (TimerAction.wait_timeout d, m) h k = h

pub apply-InRange : (e : Event) (s : System) → InRange s → InRange (apply e s)
unfolding apply parallel_post_task parallel_post_delayed_task
apply-InRange (advance d) s h = same-InRange s _ h refl refl refl refl refl refl
apply-InRange (post traits b) s h =
    post_task-cases InRange s traits b (tracker-InRange s h)
      (λ t c. one_shot-InRange _ (tracker-InRange s h t) traits c)
apply-InRange (post_delayed traits b delay) s h =
    post_delayed_task-cases InRange s traits b delay (tracker-InRange s h)
      (λ t c. one_shot_delayed-InRange _ (tracker-InRange s h t) traits c delay)
apply-InRange (parallel_post traits b) s h = one_shot-InRange s h traits _
apply-InRange (parallel_post_delayed traits b delay) s h =
    one_shot_delayed-InRange s h traits _ delay
apply-InRange (create_runner traits) s h = create-InRange s h traits
apply-InRange (runner_post t b) s h = runner_post_task-InRange s h t b
apply-InRange (runner_post_delayed t b delay) s h = runner_post_delayed_task-InRange s h t b delay
apply-InRange (deliver n) s h =
    deliver_source-InRange s _ h (extract-Extracted _ n s.in_flight h.flying)
apply-InRange (deliver_delayed n) s h =
    deliver_entry-InRange s _ h (extract-Extracted _ n s.in_flight_delayed h.flying_delayed)
apply-InRange (work i) s h = worker_step-InRange s h i (s.workers i) (λ t. h.held i t)
apply-InRange timer s h = timer_step-InRange s _ h (timer_round-Split _ s.clock s.delayed)
apply-InRange shutdown s h = shutdown_step-InRange s s.phase h

pub new_pool-InRange : (n : ℕ) (monitored : Bool) → InRange (new_pool n monitored)
unfolding new_pool
new_pool-InRange n monitored = record {
  queued = tt;
  flying = tt;
  waiting = tt;
  flying_delayed = tt;
  held = λ i t e. cc;
}
