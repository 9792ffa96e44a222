-- ===== src/ThreadGroup.antt =====
-- rust_task/thread_pool/thread_group.rs: the queue that the workers share. `get_work` is the body of
-- its loop under the mutex; a worker that would wait makes the test again when it wakes. The loop of
-- a worker is in Pool.
pub mod Popped
use rust_base.Base.{ℕ, Bool, true, false, Option, none, some, if◌then◌else◌}
use rust_base.PriorityQueue
use rust_base.PriorityQueue.{PriorityQueue}
use rust_base.Sequence.{TaskSourceSortKey}

pub record ThreadGroup : Type 0 where
  pub priority_queue : PriorityQueue
  pub shutdown : Bool

unfoldable pub new : ThreadGroup
unfolding PriorityQueue.new
new = record { priority_queue = PriorityQueue.new; shutdown = false }

unfoldable pub push_task_source : TaskSourceSortKey → ℕ → ThreadGroup → ThreadGroup
push_task_source sort_key source g = record g {
  priority_queue = PriorityQueue.push sort_key source g.priority_queue;
}

-- What a worker is told: to leave its loop, to wait, or to run a source.
pub data Work : Type 0 where
  leave wait : Work
  run : ℕ → Work

unfoldable pub work_of : ThreadGroup → Option ℕ × PriorityQueue → Work × ThreadGroup
work_of g (none, rest) = (wait, g)
work_of g (some source, rest) = (run source, record g { priority_queue = rest })

unfoldable pub get_work : ThreadGroup → Work × ThreadGroup
unfolding work_of
get_work g = if g.shutdown then (leave, g) else work_of g (PriorityQueue.pop g.priority_queue)

unfoldable pub signal_shutdown : ThreadGroup → ThreadGroup
signal_shutdown g = record g { shutdown = true }
