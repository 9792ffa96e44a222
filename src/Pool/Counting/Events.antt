-- ===== src/Pool/Counting/Events.antt =====
-- The steps of `ThreadPool::shutdown`, and every event, keep the count.
use rust_base.Base.{
  ℕ, ◌≡◌, refl, ap, ◌∙◌, Bool, true, some, none, Option, List, [], ◌∷◌, arith, inl, inr, Bool-cases,
}
use rust_base.TaskTracker
use rust_base.TaskTracker.{TaskTracker, after_run_task}
use rust_base.Sequence
use rust_base.Sequence.{Sequence, RunStatus}
use rust_base.DelayedTaskManager
use rust_base.DelayedTaskManager.{DelayedTaskManager, TimerAction}
use rust_base.ThreadGroup
use rust_base.ThreadGroup.{ThreadGroup, Work}
use rust_base.Pool.Post.{parallel_post_task, parallel_post_delayed_task}
use rust_base.Pool.Shutdown.{all_exited, shutdown_step}
use rust_base.Pool.Schedule.{
  Event, advance, post, post_delayed, parallel_post, parallel_post_delayed, create_runner,
  runner_post, runner_post_delayed, deliver, deliver_delayed, work, timer, shutdown, extract,
  deliver_source, deliver_entry, timer_step, apply, run,
}
use rust_base.Pool.{
  Phase, not_called, waiting, drained, joining, stopped, System, push_source, new_pool,
}
use rust_base.Pool.Exclusion.{IsExclusive}
use rust_base.Pool.Exclusion.Reach.{apply-IsExclusive}
use rust_base.Pool.Counting.Invariant.{Counted, past_wait}
use rust_base.Pool.Counting.Post.{
  one_shot-Counted, one_shot_delayed-Counted, create-Counted, post_task-Counted,
  post_delayed_task-Counted, runner_post_task-Counted, runner_post_delayed_task-Counted,
}
use rust_base.Pool.Counting.Step.{beside-Counted, worker_step-Counted}

module _ (s : System) (e : IsExclusive s) (x : Counted s) where
  -- A step of the thread in `shutdown`.
  phase-Counted :
      (k : TaskTracker) (g : ThreadGroup) (m : DelayedTaskManager) (p : Phase)
      → k.num_tasks_blocking_shutdown ≡ s.tracker.num_tasks_blocking_shutdown
      → k.shutdown_started ≡ true
      → (past_wait p ≡ true → s.tracker.num_tasks_blocking_shutdown ≡ 0)
      → Counted (record s { tracker = k; group = g; delayed = m; phase = p })
  phase-Counted k g m p c b w = record {
    under_way = x.under_way;
    hand = x.hand;
    free = x.free;
    formed = x.formed;
    total = c ∙ x.total;
    calm = x.calm;
    started = λ n. b;
    waited = λ h. c ∙ w h;
  }

  shutdown_step-Counted : (p : Phase) → s.phase ≡ p → Counted (shutdown_step p s)
  unfolding shutdown_step TaskTracker.begin_shutdown TaskTracker.may_return
  shutdown_step-Counted not_called q =
      phase-Counted _ s.group s.delayed _ refl refl (λ h. ground arith)
  shutdown_step-Counted waiting q = elim (Bool-cases (TaskTracker.may_return s.tracker)) [
    | inl h ↦
        rw (h, shutdown_step)
          (phase-Counted s.tracker s.group s.delayed drained refl (x.started (λ n. cc))
            (λ p. ground arith))
    | inr h ↦ rw (h, shutdown_step) x
  ]
  shutdown_step-Counted drained q =
      phase-Counted s.tracker (ThreadGroup.signal_shutdown s.group) s.delayed joining refl
        (x.started (λ n. cc)) (λ p. x.waited (ap past_wait q))
  shutdown_step-Counted joining q = elim (Bool-cases (all_exited s.threads s.workers)) [
    | inl h ↦
        rw (h, shutdown_step)
          (phase-Counted s.tracker s.group (DelayedTaskManager.signal_shutdown s.delayed) stopped
            refl (x.started (λ n. cc)) (λ p. x.waited (ap past_wait q)))
    | inr h ↦ rw (h, shutdown_step) x
  ]
  shutdown_step-Counted stopped q = x

  deliver_source-Counted : (o : Option (ℕ × List ℕ)) → Counted (deliver_source s o)
  unfolding deliver_source push_source
  deliver_source-Counted none = x
  deliver_source-Counted (some (t, rest)) = beside-Counted s e x _ refl refl refl refl refl

  deliver_entry-Counted : (o : Option ((ℕ × ℕ) × List (ℕ × ℕ))) → Counted (deliver_entry s o)
  unfolding deliver_entry
  deliver_entry-Counted none = x
  deliver_entry-Counted (some ((ready_time, t), rest)) =
      beside-Counted s e x _ refl refl refl refl refl

  timer_step-Counted : (r : TimerAction × DelayedTaskManager) → Counted (timer_step s r)
  unfolding timer_step
  timer_step-Counted (TimerAction.fire d, m) = beside-Counted s e x _ refl refl refl refl refl
  timer_step-Counted (TimerAction.quit, m) = x
  timer_step-Counted (TimerAction.wait, m) = x
  timer_step-Counted (TimerAction.wait_timeout d, m) = x

  apply-Counted : (v : Event) → Counted (apply v s)
  unfolding apply parallel_post_task parallel_post_delayed_task
  apply-Counted (advance d) = beside-Counted s e x _ refl refl refl refl refl
  apply-Counted (post traits b) = post_task-Counted s e x traits b
  apply-Counted (post_delayed traits b delay) = post_delayed_task-Counted s e x traits b delay
  apply-Counted (parallel_post traits b) =
      one_shot-Counted s e x traits _ s.tracker refl (omega arith) (λ p. refl)
  apply-Counted (parallel_post_delayed traits b delay) =
      one_shot_delayed-Counted s e x traits _ delay s.tracker refl (omega arith) (λ p. refl)
  apply-Counted (create_runner traits) = create-Counted s e x traits
  apply-Counted (runner_post t b) = runner_post_task-Counted s e x t b
  apply-Counted (runner_post_delayed t b delay) = runner_post_delayed_task-Counted s e x t b delay
  apply-Counted (deliver n) = deliver_source-Counted (extract n s.in_flight)
  apply-Counted (deliver_delayed n) = deliver_entry-Counted (extract n s.in_flight_delayed)
  apply-Counted (work i) = worker_step-Counted s e x i (s.workers i) refl
  apply-Counted timer = timer_step-Counted (DelayedTaskManager.timer_round s.clock s.delayed)
  apply-Counted shutdown = shutdown_step-Counted s.phase refl

pub events-Counted : (es : List Event) (s : System) → IsExclusive s → Counted s → Counted (run es s)
unfolding run
events-Counted [] s e x = x
events-Counted (v ∷ es) s e x =
    events-Counted es (apply v s) (apply-IsExclusive v s e) (apply-Counted s e x v)

pub new_pool-Counted : (n : ℕ) (monitored : Bool) → Counted (new_pool n monitored)
unfolding new_pool Sequence.new TaskTracker.new
new_pool-Counted n monitored = record {
  under_way = λ t. 0;
  hand = λ i t p. absurd cc;
  free = λ t p. refl;
  formed = λ i. tt;
  total = refl;
  calm = λ i t p. cc;
  started = λ h. absurd (h refl);
  waited = λ h. absurd cc;
}
