-- ===== src/Pool.antt =====
-- rust_task/thread_pool/thread_pool.rs, with the loop of the workers (thread_group.rs), the two task
-- runners (pooled_sequenced_task_runner.rs, pooled_parallel_task_runner.rs) and the hand-over of the
-- timer thread (delayed_task_manager.rs): the state of one pool. Sequences stand in a store under
-- their tokens.
pub mod Callback
pub mod Post
pub mod Worker
pub mod Cases
pub mod InRange
pub mod Exclusion
pub mod Attended
pub mod Counting
pub mod Shutdown
pub mod Schedule
pub mod Safety
pub mod Progress
pub mod Waits
pub mod Tests
use rust_base.Base.{
  ℕ, suc, ◌+◌, Bool, Option, none, some, List, [], ◌∷◌, update, if◌then◌else◌, ltb,
}
use rust_base.Sequence
use rust_base.Sequence.{Sequence}
use rust_base.Task.{TaskTraits, default_traits, create_token}
use rust_base.TaskTracker
use rust_base.TaskTracker.{TaskTracker}
use rust_base.ThreadGroup
use rust_base.ThreadGroup.{ThreadGroup}
use rust_base.DelayedTaskManager
use rust_base.DelayedTaskManager.{DelayedTaskManager}
use Callback.{Closure, Body, Instr}

-- Where a worker stands in `worker_loop`, with the token of the sequence that it has popped.
pub data Pc : Type 0 where
  idle : Pc  -- before `get_work`
  exited : Pc  -- after the loop
  got : ℕ → Pc  -- before `will_run_task`
  claimed : ℕ → Pc  -- before `take_task`
  running : ℕ → List Instr → Pc  -- in the callback, with what is left of it
  finished : ℕ → Pc  -- before the store in `did_process_task`
  checking : ℕ → Pc  -- before the test in `did_process_task`
  requeue : ℕ → Pc  -- before `push_task_source`
  panicked : ℕ → Pc  -- after an underflow in `after_run_task`

-- Where the thread that shuts the pool down stands in `ThreadPool::shutdown`.
pub data Phase : Type 0 where
  not_called : Phase
  waiting : Phase  -- in the loop of `TaskTracker::shutdown`
  drained : Phase  -- before `join_all`
  joining : Phase  -- in `join_all`, with the flag set
  stopped : Phase  -- after the timer thread was told to stop

pub record System : Type 0 where
  pub clock : ℕ
  pub next_token : ℕ
  pub next_entry_id : ℕ
  pub monitored : Bool
  pub threads : ℕ
  pub tracker : TaskTracker
  pub group : ThreadGroup
  pub delayed : DelayedTaskManager
  pub sequences : ℕ → Sequence Closure
  -- the calls of `push_task_source` and of `add_sequence` that some thread is about to make
  pub in_flight : List ℕ
  pub in_flight_delayed : List (ℕ × ℕ)
  pub workers : ℕ → Pc
  pub phase : Phase
  -- the callbacks that were called, each with the token of its sequence, newest first
  pub log : List (ℕ × ℕ)

unfoldable pub new_pool : ℕ → Bool → System
unfolding TaskTracker.new ThreadGroup.new DelayedTaskManager.new Sequence.new
new_pool num_threads monitored = record {
  clock = 0;
  next_token = 1;
  next_entry_id = 0;
  monitored = monitored;
  threads = num_threads;
  tracker = TaskTracker.new;
  group = ThreadGroup.new;
  delayed = DelayedTaskManager.new;
  sequences = λ t. Sequence.new t default_traits;
  in_flight = [];
  in_flight_delayed = [];
  workers = λ _. idle;
  phase = not_called;
  log = [];
}

-- A new sequence in the store, under the next token.
unfoldable pub add_new_sequence :
    TaskTraits → (Sequence Closure → Sequence Closure) → System → System
unfolding Sequence.new
add_new_sequence traits fill s =
    let (token, next) = create_token s.next_token in
    record s {
      next_token = next;
      sequences = update s.sequences token (fill (Sequence.new token traits));
    }

-- Through the mutex of one sequence.
unfoldable pub set_sequence : ℕ → Sequence Closure → System → System
set_sequence t q s = record s { sequences = update s.sequences t q }

unfoldable pub set_worker : ℕ → Pc → System → System
set_worker i pc s = record s { workers = update s.workers i pc }

unfoldable pub push_source : ℕ → System → System
unfolding ThreadGroup.push_task_source Sequence.get_sort_key
push_source t s = record s {
  group = ThreadGroup.push_task_source (Sequence.get_sort_key s.clock (s.sequences t)) t s.group;
}
