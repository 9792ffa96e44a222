-- ===== src/Task.antt =====
-- rust_task/task.rs, task_traits.rs and sequence_token.rs: what is posted, and under which traits.
-- A callback is a value of an arbitrary type; an `Instant` and a `Duration` are numbers.
use rust_base.Base.{ℕ, ◌+◌, Bool, false, true, Option, none, some}

pub data TaskPriority : Type 0 where
  best_effort user_visible user_blocking : TaskPriority

pub data TaskShutdownBehavior : Type 0 where
  continue_on_shutdown skip_on_shutdown block_shutdown : TaskShutdownBehavior

pub data ThreadPolicy : Type 0 where
  prefer_background must_use_foreground : ThreadPolicy

pub record TaskTraits : Type 0 where
  pub priority : TaskPriority
  pub shutdown_behavior : TaskShutdownBehavior
  pub thread_policy : ThreadPolicy
  pub may_block : Bool

abbrev pub default_traits : TaskTraits
default_traits = record {
  priority = user_visible;
  shutdown_behavior = skip_on_shutdown;
  thread_policy = prefer_background;
  may_block = false;
}

-- The derived order on `TaskPriority`, by the position of the constructor.
abbrev pub priority_rank : TaskPriority → ℕ
priority_rank best_effort = 0
priority_rank user_visible = 1
priority_rank user_blocking = 2

-- The derived `==` on `TaskShutdownBehavior`, at the two values that the code compares with.
abbrev pub is_block_shutdown : TaskShutdownBehavior → Bool
is_block_shutdown block_shutdown = true
is_block_shutdown _ = false

abbrev pub is_skip_on_shutdown : TaskShutdownBehavior → Bool
is_skip_on_shutdown skip_on_shutdown = true
is_skip_on_shutdown _ = false

abbrev pub is_continue_on_shutdown : TaskShutdownBehavior → Bool
is_continue_on_shutdown continue_on_shutdown = true
is_continue_on_shutdown _ = false

-- `struct Task`, less the source location that it was posted from.
pub record Task (C : Type 0) : Type 0 where
  pub callback : C
  pub delayed_run_time : Option ℕ
  pub sequence_num : ℕ

module _ {C : Type 0} where
  abbrev pub new_task : C → Task C
  new_task callback = record { callback = callback; delayed_run_time = none; sequence_num = 0 }

  abbrev pub new_delayed_task : C → ℕ → Task C
  new_delayed_task callback run_time = record {
    callback = callback;
    delayed_run_time = some run_time;
    sequence_num = 0;
  }

-- `SequenceToken::create`: the counter's old value is the token; the counter is the new one.
abbrev pub create_token : ℕ → ℕ × ℕ
create_token next_sequence_id = (next_sequence_id, next_sequence_id + 1)
