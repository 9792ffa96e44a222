-- ===== src/Examples.antt =====
-- The theorems on the parts of a pool (rust_task/thread_pool: sequence.rs, priority_queue.rs,
-- delayed_task_manager.rs, task_tracker.rs) at concrete inputs.
use rust_base.Base.{ℕ, ◌≡◌, refl, ◌⊎◌, true, false, List, [], ◌∷◌, ◌++◌, none}
use rust_base.Task.{
  TaskTraits, TaskPriority, TaskShutdownBehavior, default_traits, new_task, is_continue_on_shutdown,
}
use rust_base.Sequence
use rust_base.Sequence.{Sequence, SequenceInner}
use rust_base.Sequence.Flush.{Flushed, flush_ready_delayed_tasks-Flushed}
use rust_base.Sequence.Order
use rust_base.Sequence.Order.{Op, callbacks, posted, run-fifo}
use rust_base.PriorityQueue
use rust_base.PriorityQueue.{QueueEntry, PriorityQueue}
use rust_base.PriorityQueue.Best.{Served, pop-Served}
use rust_base.DelayedTaskManager
use rust_base.DelayedTaskManager.{DelayedTaskManager}
use rust_base.DelayedTaskManager.Deadline.{RoundOf, timer_round-RoundOf}
use rust_base.TaskTracker
use rust_base.TaskTracker.{TaskTracker}
use rust_base.TaskTracker.Phase.{will_post_task_started}

-- Two delayed tasks, of which one is due at 4.
abbrev two_delayed : Sequence ℕ
two_delayed =
    Sequence.push_delayed_task (new_task 2) 9
      (Sequence.push_delayed_task (new_task 1) 3 (Sequence.new 1 default_traits))

flush_ready_delayed_tasks-Flushed_example :
    Flushed 4 two_delayed.inner (Sequence.flush_ready_delayed_tasks 4 two_delayed.inner)
flush_ready_delayed_tasks-Flushed_example = flush_ready_delayed_tasks-Flushed 4 two_delayed.inner

abbrev history : List (Op ℕ)
history = Op.post 1 ∷ Op.post 2 ∷ Op.take 0 ∷ Op.post 3 ∷ Op.take 0 ∷ []

abbrev fresh : Sequence ℕ
fresh = Sequence.new 1 default_traits

nothing_delayed : fresh.inner.delayed_queue ≡ []
unfolding Sequence.new
nothing_delayed = refl

run-fifo_example :
    (Order.run history fresh).0 ++ callbacks (Order.run history fresh).1.inner.immediate_queue
    ≡ callbacks fresh.inner.immediate_queue ++ posted history
run-fifo_example = run-fifo history fresh nothing_delayed

abbrev two_sources : PriorityQueue
two_sources =
    PriorityQueue.push (record { priority = TaskPriority.best_effort; ready_time = 1 }) 5
      (PriorityQueue.push (record { priority = TaskPriority.user_blocking; ready_time = 2 }) 6
        PriorityQueue.new)

pop-Served_example :
    ((two_sources.heap ≡ []) × (PriorityQueue.pop two_sources ≡ (none, two_sources)))
    ⊎ Served two_sources (PriorityQueue.pop two_sources)
pop-Served_example = pop-Served two_sources

abbrev two_deadlines : DelayedTaskManager
two_deadlines =
    DelayedTaskManager.add_sequence 1 4 8
      (DelayedTaskManager.add_sequence 0 9 7 DelayedTaskManager.new)

timer_round-RoundOf_example :
    RoundOf 5 two_deadlines (DelayedTaskManager.timer_round 5 two_deadlines)
timer_round-RoundOf_example = timer_round-RoundOf 5 two_deadlines

abbrev blocking : TaskTraits
blocking = record default_traits { shutdown_behavior = TaskShutdownBehavior.block_shutdown }

abbrev shut : TaskTracker
shut = record { shutdown_started = true; num_tasks_blocking_shutdown = 1 }

abbrev open_tracker : TaskTracker
open_tracker = record { shutdown_started = false; num_tasks_blocking_shutdown = 2 }

will_post_task_started_example :
    TaskTracker.will_post_task blocking shut
    ≡ (is_continue_on_shutdown blocking.shutdown_behavior, shut)
will_post_task_started_example = will_post_task_started blocking shut refl
