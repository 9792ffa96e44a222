-- ===== src/TaskTracker/Phase.antt =====
-- The two phases of a tracker: before `shutdown` starts, and after.
use rust_base.Base.{◌≡◌, ◌↔◌, refl, true, false, some, arith}
use mathlib.Core.Option
use rust_base.Task.{TaskTraits, is_continue_on_shutdown}
use rust_base.TaskTracker.{TaskTracker, will_post_task, after_run_task, begin_shutdown, decrement}

-- Once `shutdown` has started exactly the posts that may go on after it are accepted, and no post
-- changes the tracker.
pub will_post_task_started :
    (traits : TaskTraits) (t : TaskTracker)
    → t.shutdown_started ≡ true
    → will_post_task traits t ≡ (is_continue_on_shutdown traits.shutdown_behavior, t)
unfolding will_post_task
will_post_task_started traits t h = ground arith

-- Before that every post is accepted, and the end of its task gives the count back.
pub after_run_task-will_post_task :
    (traits : TaskTraits) (t : TaskTracker)
    → t.shutdown_started ≡ false
    → ((will_post_task traits t).0 ≡ true)
      × (Option.map (λ p. p.0) (after_run_task traits (will_post_task traits t).1) ≡ some t)
unfolding will_post_task after_run_task decrement
after_run_task-will_post_task traits t h = (ground arith, ground arith)

-- `shutdown` goes on without a wait exactly when no task blocks it, and keeps the count.
pub begin_shutdown_lem :
    (t : TaskTracker)
    → ((begin_shutdown t).0 ≡ true ↔ (t.num_tasks_blocking_shutdown ≡ 0))
      × ((begin_shutdown t).1.num_tasks_blocking_shutdown ≡ t.num_tasks_blocking_shutdown)
unfolding begin_shutdown
begin_shutdown_lem t = (ground arith, refl)
