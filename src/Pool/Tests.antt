-- ===== src/Pool/Tests.antt =====
-- One worker, one task: the steps of a pool (rust_task/thread_pool) on concrete schedules.
use rust_base.Base.{
  ℕ, ◌≡◌, refl, true, false, List, [], ◌∷◌, ◌++◌, none, zero, suc, arith, ◌<◌, ◌≢◌,
}
use native.Mathlib.Decide.{ℕ_discrete}
use rust_base.Base.Heap
use rust_base.PriorityQueue
use rust_base.Sequence
use rust_base.TaskTracker
use rust_base.ThreadGroup
use rust_base.Pool.Post
use rust_base.Task.{TaskTraits, TaskShutdownBehavior, default_traits}
use rust_base.Pool.Callback.{Instr, call, check, after, user}
use rust_base.Pool.{running, new_pool, panicked}
use rust_base.Pool.Schedule.{
  Event, advance, post, post_delayed, deliver, deliver_delayed, work, timer, run, shutdown,
}
use rust_base.Pool.InRange.{token_of}
use rust_base.Pool.Attended.{Attended}
use rust_base.Pool.Safety.{run-exclusive}
use rust_base.Pool.Counting.{load, queue_load}
use rust_base.Pool.Counting.Invariant.{past_wait}
use rust_base.Pool.Waits.{run-none_queued, run-none_running, run-no_underflow}
use rust_base.Pool.Progress.{Quiet, run-Attended, run-drained}

-- The task is posted and handed to the workers, and worker 0 takes it up.
abbrev taken_up : List Event
taken_up = post default_traits (user 7) ∷ deliver 0 ∷ work 0 ∷ work 0 ∷ work 0 ∷ []

-- The callback runs to its end, and the worker gives the sequence up.
abbrev to_the_end : List Event
to_the_end = taken_up ++ work 0 ∷ work 0 ∷ work 0 ∷ work 0 ∷ work 0 ∷ work 0 ∷ []

abbrev callback : List Instr
callback = check default_traits ∷ call 7 ∷ after default_traits ∷ []

runs : (run taken_up (new_pool 2 false)).workers 0 ≡ running 1 callback
unfolding run new_pool Post.post_task ThreadGroup.get_work PriorityQueue.pop PriorityQueue.push
    ℕ_discrete Sequence.will_run_task Sequence.take_task Sequence.take_task_inner
    Sequence.flush_ready_delayed_tasks Sequence.flush_loop TaskTracker.after_run_task
    Sequence.has_ready_tasks Sequence.clear_worker Sequence.delayed_ready Heap.peek
runs = refl

called : (run to_the_end (new_pool 2 false)).log ≡ (1, 7) ∷ []
unfolding run new_pool Post.post_task ThreadGroup.get_work PriorityQueue.pop PriorityQueue.push
    ℕ_discrete Sequence.will_run_task Sequence.take_task Sequence.take_task_inner
    Sequence.flush_ready_delayed_tasks Sequence.flush_loop TaskTracker.after_run_task
    Sequence.has_ready_tasks Sequence.clear_worker Sequence.delayed_ready Heap.peek
called = refl

run-exclusive_example : ◌≡◌ {A = ℕ} 0 0
run-exclusive_example = run-exclusive taken_up 2 false 0 0 1 callback callback runs runs

abbrev delayed : List Event
delayed = post_delayed default_traits (user 7) 5 ∷ deliver_delayed 0 ∷ advance 5 ∷ timer ∷ []

run-Attended_example : Attended (run delayed (new_pool 2 false)) 1
run-Attended_example = run-Attended delayed 2 false 1

no_holder : (i : ℕ) → token_of ((run to_the_end (new_pool 2 false)).workers i) ≡ none
unfolding run new_pool Post.post_task ThreadGroup.get_work PriorityQueue.pop PriorityQueue.push
    ℕ_discrete Sequence.will_run_task Sequence.take_task Sequence.take_task_inner
    Sequence.flush_ready_delayed_tasks Sequence.flush_loop TaskTracker.after_run_task
    Sequence.has_ready_tasks Sequence.clear_worker Sequence.delayed_ready Heap.peek
no_holder zero = refl
no_holder (suc i) = ground arith

at_rest : Quiet (run to_the_end (new_pool 2 false))
unfolding run new_pool Post.post_task ThreadGroup.get_work PriorityQueue.pop PriorityQueue.push
    ℕ_discrete Sequence.will_run_task Sequence.take_task Sequence.take_task_inner
    Sequence.flush_ready_delayed_tasks Sequence.flush_loop TaskTracker.after_run_task
    Sequence.has_ready_tasks Sequence.clear_worker Sequence.delayed_ready Heap.peek
at_rest = record {
  no_source = refl;
  no_flight = refl;
  no_entry = refl;
  no_delayed_flight = refl;
  no_holder = no_holder;
}

run-drained_example :
    (((run to_the_end (new_pool 2 false)).sequences 1).inner.immediate_queue ≡ [])
    × (((run to_the_end (new_pool 2 false)).sequences 1).inner.delayed_queue ≡ [])
    × ((run to_the_end (new_pool 2 false)).tracker.num_tasks_blocking_shutdown ≡ 0)
run-drained_example = run-drained to_the_end 2 false at_rest 1

abbrev blocking : TaskTraits
blocking = record default_traits { shutdown_behavior = TaskShutdownBehavior.block_shutdown }

abbrev continuing : TaskTraits
continuing = record default_traits { shutdown_behavior = TaskShutdownBehavior.continue_on_shutdown }

-- The shutdown waits for a task that blocks it.
abbrev waited_for : List Event
waited_for =
    post blocking (user 7)
    ∷ deliver 0
    ∷ shutdown
    ∷ shutdown
    ∷ work 0
    ∷ work 0
    ∷ work 0
    ∷ work 0
    ∷ work 0
    ∷ work 0
    ∷ shutdown
    ∷ []

has_waited : past_wait (run waited_for (new_pool 2 false)).phase ≡ true
unfolding run new_pool Post.post_task ThreadGroup.get_work PriorityQueue.pop PriorityQueue.push
    ℕ_discrete Sequence.will_run_task Sequence.take_task Sequence.take_task_inner
    Sequence.flush_ready_delayed_tasks Sequence.flush_loop TaskTracker.after_run_task
    Sequence.has_ready_tasks Sequence.clear_worker Sequence.delayed_ready Heap.peek
has_waited = refl

given_out : 1 < (run waited_for (new_pool 2 false)).next_token
unfolding run new_pool Post.post_task ThreadGroup.get_work PriorityQueue.pop PriorityQueue.push
    ℕ_discrete Sequence.will_run_task Sequence.take_task Sequence.take_task_inner
    Sequence.flush_ready_delayed_tasks Sequence.flush_loop TaskTracker.after_run_task
    Sequence.has_ready_tasks Sequence.clear_worker Sequence.delayed_ready Heap.peek
given_out = omega arith

run-none_queued_example : queue_load ((run waited_for (new_pool 2 false)).sequences 1) ≡ 0
run-none_queued_example = run-none_queued waited_for 2 false 1 given_out has_waited

-- A task that does not block the shutdown is still in its callback.
abbrev not_waited_for : List Event
not_waited_for = post continuing (user 7) ∷ deliver 0 ∷ work 0 ∷ work 0 ∷ work 0 ∷ shutdown ∷ []

abbrev still_to_do : List Instr
still_to_do = check continuing ∷ call 7 ∷ after continuing ∷ []

still_running : (run not_waited_for (new_pool 2 false)).workers 0 ≡ running 1 still_to_do
unfolding run new_pool Post.post_task ThreadGroup.get_work PriorityQueue.pop PriorityQueue.push
    ℕ_discrete Sequence.will_run_task Sequence.take_task Sequence.take_task_inner
    Sequence.flush_ready_delayed_tasks Sequence.flush_loop TaskTracker.after_run_task
    Sequence.has_ready_tasks Sequence.clear_worker Sequence.delayed_ready Heap.peek
still_running = refl

not_waited : past_wait (run not_waited_for (new_pool 2 false)).phase ≡ true
unfolding run new_pool Post.post_task ThreadGroup.get_work PriorityQueue.pop PriorityQueue.push
    ℕ_discrete Sequence.will_run_task Sequence.take_task Sequence.take_task_inner
    Sequence.flush_ready_delayed_tasks Sequence.flush_loop TaskTracker.after_run_task
    Sequence.has_ready_tasks Sequence.clear_worker Sequence.delayed_ready Heap.peek
not_waited = refl

run-none_running_example : load still_to_do ≡ 0
run-none_running_example =
    run-none_running not_waited_for 2 false 0 1 still_to_do still_running not_waited

run-no_underflow_example : (run waited_for (new_pool 2 false)).workers 0 ≢ panicked 1
run-no_underflow_example = run-no_underflow waited_for 2 false 0 1
