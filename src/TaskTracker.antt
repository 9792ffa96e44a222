-- ===== src/TaskTracker.antt =====
-- rust_task/thread_pool/task_tracker.rs: which posts are accepted, and what `shutdown` waits for.
-- Every method runs under one mutex. The condition variable is the test `may_return`, which the
-- thread in `shutdown` makes again whenever it wakes, for whatever reason.
pub mod Phase
use rust_base.Base.{ℕ, zero, suc, ◌+◌, Bool, true, false, Option, none, some, if◌then◌else◌, ◌==◌}
use rust_base.Task.{TaskTraits, is_block_shutdown, is_continue_on_shutdown}

pub record TaskTracker : Type 0 where
  pub shutdown_started : Bool
  pub num_tasks_blocking_shutdown : ℕ

unfoldable pub new : TaskTracker
new = record { shutdown_started = false; num_tasks_blocking_shutdown = 0 }

-- Whether the task may be posted.
unfoldable pub will_post_task : TaskTraits → TaskTracker → Bool × TaskTracker
will_post_task traits t =
    if t.shutdown_started
    then (is_continue_on_shutdown traits.shutdown_behavior, t)
    else (if is_block_shutdown traits.shutdown_behavior
        then (true, record t { num_tasks_blocking_shutdown = t.num_tasks_blocking_shutdown + 1 })
        else (true, t))

-- `n -= 1` of an unsigned number: nothing at 0, where the code panics.
unfoldable pub decrement : ℕ → Option ℕ
decrement zero = none
decrement (suc n) = some n

abbrev left_with : TaskTracker → Option ℕ → Option (TaskTracker × Bool)
left_with t none = none
left_with t (some n) = some (record t { num_tasks_blocking_shutdown = n }, n == 0)

-- The new state, and whether those who wait in `shutdown` are notified.
unfoldable pub after_run_task : TaskTraits → TaskTracker → Option (TaskTracker × Bool)
unfolding decrement
after_run_task traits t =
    if is_block_shutdown traits.shutdown_behavior
    then left_with t (decrement t.num_tasks_blocking_shutdown)
    else some (t, false)

unfoldable pub is_shutdown_started : TaskTracker → Bool
is_shutdown_started t = t.shutdown_started

-- The test that ends `shutdown`, before the wait and in its loop.
unfoldable pub may_return : TaskTracker → Bool
may_return t = t.num_tasks_blocking_shutdown == 0

-- The first part of `shutdown`: whether it returns without waiting, and the new state.
unfoldable pub begin_shutdown : TaskTracker → Bool × TaskTracker
unfolding may_return
begin_shutdown t =
    let started = record t { shutdown_started = true } in (may_return started, started)
