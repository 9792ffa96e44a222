-- ===== src/Pool/Shutdown.antt =====
-- `ThreadPool::shutdown` of rust_task/thread_pool/thread_pool.rs, called by one thread, and the calls
-- that it is made of.
use rust_base.Base.{ℕ, zero, suc, Bool, true, false, if◌then◌else◌, ◌&&◌}
use rust_base.TaskTracker
use rust_base.ThreadGroup
use rust_base.DelayedTaskManager
use rust_base.Pool.{Pc, exited, Phase, not_called, waiting, drained, joining, stopped, System}

abbrev has_exited : Pc → Bool
has_exited exited = true
has_exited _ = false

-- `handle.join()` for each of the workers that the pool made.
unfoldable pub all_exited : ℕ → (ℕ → Pc) → Bool
all_exited zero workers = true
all_exited (suc n) workers = has_exited (workers n) && all_exited n workers

unfoldable pub shutdown_step : Phase → System → System
unfolding TaskTracker.begin_shutdown ThreadGroup.signal_shutdown DelayedTaskManager.signal_shutdown
shutdown_step not_called s =
    let (returns, tracker) = TaskTracker.begin_shutdown s.tracker in
    record s { tracker = tracker; phase = if returns then drained else waiting }
shutdown_step waiting s =
    if TaskTracker.may_return s.tracker then record s { phase = drained } else s
shutdown_step drained s = record s { group = ThreadGroup.signal_shutdown s.group; phase = joining }
shutdown_step joining s =
    if all_exited s.threads s.workers
    then record s { delayed = DelayedTaskManager.signal_shutdown s.delayed; phase = stopped }
    else s
shutdown_step stopped s = s
