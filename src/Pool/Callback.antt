-- ===== src/Pool/Callback.antt =====
-- The callbacks that the pool builds around those that it is given: `wrap_task` of
-- rust_task/task_monitor.rs, `wrap` of rust_task/thread_pool/thread_pool.rs, and the wrapper of
-- `post_task_and_reply`. What a callback does when it is called is a list of instructions, since
-- other threads run between them.
use rust_base.Base.{ℕ, Bool, Option, none, some, List, [], ◌∷◌, ◌++◌, if◌then◌else◌}
use rust_base.Task.{TaskTraits}

pub data Body : Type 0 where
  user : ℕ → Body  -- a callback of the client, by its identity
  timed : Body → Body
  with_reply : Body → Option ℕ → Body → Body  -- the token of the runner that gets the reply

pub data Closure : Type 0 where
  plain : Body → Closure
  guarded : TaskTraits → Body → Closure

pub data Instr : Type 0 where
  call : ℕ → Instr
  report : Instr  -- `on_metrics`
  post_reply : ℕ → Body → Instr
  check : TaskTraits → Instr  -- the test on the tracker, which may end the callback
  after : TaskTraits → Instr  -- `after_run_task`

-- `Some(m) => m.wrap_task(callback), None => callback`
abbrev pub monitor : Bool → Body → Body
monitor monitored b = if monitored then timed b else b

abbrev pub wrap : Bool → TaskTraits → Body → Closure
wrap monitored traits b = guarded traits (monitor monitored b)

abbrev pub body_steps : Body → List Instr
body_steps (user f) = call f ∷ []
body_steps (timed b) = body_steps b ++ report ∷ []
body_steps (with_reply task none reply) = body_steps task
body_steps (with_reply task (some runner) reply) = body_steps task ++ post_reply runner reply ∷ []

abbrev pub steps : Closure → List Instr
steps (plain b) = body_steps b
steps (guarded traits b) = check traits ∷ (body_steps b ++ after traits ∷ [])
