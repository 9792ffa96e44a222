-- ===== src/Pool/Post.antt =====
-- The ways in which a task is posted. A post that makes a new sequence is one step up to the call of
-- `push_task_source` or `add_sequence`, since no other thread can see the sequence before; that
-- call is a later step of its own, and so is the one that follows a push into a shared sequence.
use rust_base.Base.{ℕ, ◌+◌, Bool, true, false, ◌∷◌, ltb, if◌then◌else◌}
use rust_base.Sequence
use rust_base.Task.{TaskTraits, new_task}
use rust_base.TaskTracker
use rust_base.Pool.Callback.{Closure, Body, plain, monitor, wrap}
use rust_base.Pool.{System, add_new_sequence, set_sequence}

-- A one-shot sequence that holds one task, about to be handed to the thread group.
unfoldable pub one_shot : TaskTraits → Closure → System → System
unfolding add_new_sequence Sequence.push_task
one_shot traits c s =
    let s' = add_new_sequence traits (Sequence.push_task (new_task c)) s in
    record s' { in_flight = s.next_token ∷ s'.in_flight }

unfoldable pub one_shot_delayed : TaskTraits → Closure → ℕ → System → System
unfolding add_new_sequence Sequence.push_delayed_task
one_shot_delayed traits c delay s =
    let ready_time = s.clock + delay in
    let s' = add_new_sequence traits (Sequence.push_delayed_task (new_task c) ready_time) s in
    record s' { in_flight_delayed = (ready_time, s.next_token) ∷ s'.in_flight_delayed }

abbrev pub with_tracker :
    System → Bool × TaskTracker.TaskTracker → (System → System) → Bool × System
with_tracker s (false, t) go = (false, record s { tracker = t })
with_tracker s (true, t) go = (true, go (record s { tracker = t }))

-- `ThreadPool::post_task`
unfoldable pub post_task : TaskTraits → Body → System → Bool × System
unfolding one_shot TaskTracker.will_post_task
post_task traits b s =
    with_tracker s (TaskTracker.will_post_task traits s.tracker)
      (one_shot traits (wrap s.monitored traits b))

-- `ThreadPool::post_delayed_task`
unfoldable pub post_delayed_task : TaskTraits → Body → ℕ → System → Bool × System
unfolding one_shot_delayed TaskTracker.will_post_task
post_delayed_task traits b delay s =
    with_tracker s (TaskTracker.will_post_task traits s.tracker)
      (one_shot_delayed traits (wrap s.monitored traits b) delay)

-- `PooledParallelTaskRunner::post_task` and `post_delayed_task`
unfoldable pub parallel_post_task : TaskTraits → Body → System → Bool × System
unfolding one_shot
parallel_post_task traits b s = (true, one_shot traits (plain (monitor s.monitored b)) s)

unfoldable pub parallel_post_delayed_task : TaskTraits → Body → ℕ → System → Bool × System
unfolding one_shot_delayed
parallel_post_delayed_task traits b delay s =
    (true, one_shot_delayed traits (plain (monitor s.monitored b)) delay s)

-- `ThreadPool::create_sequenced_task_runner`: the token names the runner.
unfoldable pub create_sequenced_task_runner : TaskTraits → System → System
unfolding add_new_sequence
create_sequenced_task_runner traits s = add_new_sequence traits (λ q. q) s

-- `PooledSequencedTaskRunner::post_task`. Only a runner that was made can be posted to.
unfoldable pub runner_post_task : ℕ → Body → System → Bool × System
unfolding set_sequence Sequence.push_task
runner_post_task t b s =
    if ltb t s.next_token
    then (
      true,
      set_sequence t (Sequence.push_task (new_task (plain (monitor s.monitored b))) (s.sequences t))
          (record s { in_flight = t ∷ s.in_flight }),
    )
    else (false, s)

-- `PooledSequencedTaskRunner::post_delayed_task`
unfoldable pub runner_post_delayed_task : ℕ → Body → ℕ → System → Bool × System
unfolding set_sequence Sequence.push_delayed_task
runner_post_delayed_task t b delay s =
    let ready_time = s.clock + delay in
    if ltb t s.next_token
    then (
      true,
      set_sequence t
          (Sequence.push_delayed_task (new_task (plain (monitor s.monitored b))) ready_time
            (s.sequences t))
          (record s { in_flight_delayed = (ready_time, t) ∷ s.in_flight_delayed }),
    )
    else (false, s)
