-- ===== src/Pool/Exclusion/Step.antt =====
-- Every event keeps the ownership of the sequences exclusive.
use rust_base.Base.{
  ℕ, ◌<◌, ◌≤◌, ◌≡◌, refl, ap, Bool, true, false, Option, none, some, List, [], ◌∷◌, update, arith,
}
use rust_base.Sequence
use rust_base.Sequence.{Sequence, RunStatus}
use rust_base.Sequence.Claim.{will_run_task_free, will_run_task_taken}
use rust_base.Task.{Task, TaskTraits}
use rust_base.TaskTracker
use rust_base.TaskTracker.{TaskTracker}
use rust_base.ThreadGroup
use rust_base.ThreadGroup.{ThreadGroup, Work}
use rust_base.Pool.Callback.{Body, Closure, Instr, call, report, post_reply, check, after}
use rust_base.Pool.Post.{
  one_shot, one_shot_delayed, create_sequenced_task_runner, runner_post_task,
  runner_post_delayed_task,
}
use rust_base.Pool.Worker.{take_work, claim, start_task, finish_guarded, run_instr, worker_step}
use rust_base.Pool.{
  Pc, idle, exited, got, claimed, running, finished, checking, requeue, panicked, System,
}
use rust_base.Pool.InRange.{InRange, token_of}
use rust_base.Pool.Exclusion.{
  owns, IsExclusive, IsExclusive-same, IsExclusive-claim, IsExclusive-release, flag_of, owner_of,
}

-- What an event does to the flags and to the owners.
pub data Change (s s' : System) : Type 0 where
  same :
      s.next_token ≤ s'.next_token
      → ((t : ℕ) → flag_of s' t ≡ flag_of s t)
      → ((i : ℕ) → owner_of s' i ≡ owner_of s i)
      → Change s s'
  claims :
      s.next_token ≤ s'.next_token
      → (i t : ℕ) → t < s.next_token
      → flag_of s t ≡ false
      → owner_of s i ≡ none
      → ((u : ℕ) → flag_of s' u ≡ update (flag_of s) t true u)
      → ((j : ℕ) → owner_of s' j ≡ update (owner_of s) i (some t) j)
      → Change s s'
  releases :
      s.next_token ≤ s'.next_token
      → (i t : ℕ) → owner_of s i ≡ some t
      → ((u : ℕ) → flag_of s' u ≡ update (flag_of s) t false u)
      → ((j : ℕ) → owner_of s' j ≡ update (owner_of s) i none j)
      → Change s s'

pub Change-IsExclusive : {s s' : System} → Change s s' → InRange s' → IsExclusive s → IsExclusive s'
Change-IsExclusive (same n f o) r x = IsExclusive-same x r n f o
Change-IsExclusive (claims n i t k e g f o) r x = IsExclusive-claim x r n i t k e g f o
Change-IsExclusive (releases n i t e f o) r x = IsExclusive-release x r n i t e f o

pub unchanged : (s : System) → Change s s
unchanged s = same (omega arith) (λ t. refl) (λ i. refl)

module _ (s : System) where
  pub one_shot-Change :
      flag_of s s.next_token ≡ false
      → (traits : TaskTraits) (c : Closure) (t : TaskTracker)
      → Change s (one_shot traits c (record s { tracker = t }))
  unfolding one_shot
  one_shot-Change e traits c t = same (omega arith) (λ u. ground arith) (λ i. refl)

  pub one_shot_delayed-Change :
      flag_of s s.next_token ≡ false
      → (traits : TaskTraits) (c : Closure) (delay : ℕ) (t : TaskTracker)
      → Change s (one_shot_delayed traits c delay (record s { tracker = t }))
  unfolding one_shot_delayed
  one_shot_delayed-Change e traits c delay t = same (omega arith) (λ u. ground arith) (λ i. refl)

  pub create-Change :
      flag_of s s.next_token ≡ false
      → (traits : TaskTraits) → Change s (create_sequenced_task_runner traits s)
  unfolding create_sequenced_task_runner
  create-Change e traits = same (omega arith) (λ u. ground arith) (λ i. refl)

  pub runner_post_task-Change : (t : ℕ) (b : Body) → Change s (runner_post_task t b s).1
  unfolding runner_post_task
  runner_post_task-Change t b = same (ground arith) (λ u. ground arith) (λ i. ground arith)

  pub runner_post_delayed_task-Change :
      (t : ℕ) (b : Body) (delay : ℕ) → Change s (runner_post_delayed_task t b delay s).1
  unfolding runner_post_delayed_task
  runner_post_delayed_task-Change t b delay =
      same (ground arith) (λ u. ground arith) (λ i. ground arith)

  take_work-Change :
      (i : ℕ) (r : Work × ThreadGroup) → owner_of s i ≡ none → Change s (take_work i s r)
  unfolding take_work
  take_work-Change i (Work.leave, g) e = same (omega arith) (λ t. refl) (λ j. ground arith)
  take_work-Change i (Work.wait, g) e = unchanged s
  take_work-Change i (Work.run t, g) e = same (omega arith) (λ t. refl) (λ j. ground arith)

  claim-Change :
      (i t : ℕ) (b : Bool)
      → flag_of s t ≡ b
      → owner_of s i ≡ none
      → t < s.next_token
      → Change s (claim i t s (Sequence.will_run_task (s.sequences t)))
  unfolding claim
  claim-Change i t true e o k =
      rw (will_run_task_taken (s.sequences t) e)
        (same (omega arith) (λ u. ground arith) (λ j. ground arith))
  claim-Change i t false e o k =
      rw (will_run_task_free (s.sequences t) e)
        (claims (omega arith) i t k e o (λ u. ground arith) (λ j. ground arith))

  start_task-Change :
      (i t : ℕ) (r : Option (Task Closure) × Sequence Closure)
      → r.1.has_worker ≡ flag_of s t
      → owner_of s i ≡ some t
      → Change s (start_task i t s r)
  unfolding start_task
  start_task-Change i t (none, q) e o = same (omega arith) (λ u. ground arith) (λ j. ground arith)
  start_task-Change i t (some task, q) e o =
      same (omega arith) (λ u. ground arith) (λ j. ground arith)

  finish_guarded-Change :
      (i t : ℕ) (rest : List Instr) (r : Option (TaskTracker × Bool))
      → owner_of s i ≡ some t
      → Change s (finish_guarded i t rest s r)
  unfolding finish_guarded
  finish_guarded-Change i t rest none o = same (omega arith) (λ u. refl) (λ j. ground arith)
  finish_guarded-Change i t rest (some (tracker, b)) o =
      same (omega arith) (λ u. refl) (λ j. ground arith)

  run_instr-Change :
      (i t : ℕ) (todo : List Instr) → owner_of s i ≡ some t → Change s (run_instr i t todo s)
  unfolding run_instr
  run_instr-Change i t [] o = same (omega arith) (λ u. refl) (λ j. ground arith)
  run_instr-Change i t (call f ∷ rest) o = same (omega arith) (λ u. refl) (λ j. ground arith)
  run_instr-Change i t (report ∷ rest) o = same (omega arith) (λ u. refl) (λ j. ground arith)
  run_instr-Change i t (post_reply r b ∷ rest) o =
      same (ground arith) (λ u. ground arith) (λ j. ground arith)
  run_instr-Change i t (check traits ∷ rest) o =
      same (ground arith) (λ u. ground arith) (λ j. ground arith)
  run_instr-Change i t (after traits ∷ rest) o =
      finish_guarded-Change i t rest (TaskTracker.after_run_task traits s.tracker) o

  pub worker_step-Change :
      InRange s → (i : ℕ) (pc : Pc) → s.workers i ≡ pc → Change s (worker_step i pc s)
  unfolding worker_step Sequence.clear_worker Sequence.take_task
  worker_step-Change r i idle e = take_work-Change i (ThreadGroup.get_work s.group) (ap owns e)
  worker_step-Change r i exited e = unchanged s
  worker_step-Change r i (got t) e =
      claim-Change i t (flag_of s t) refl (ap owns e) (r.held i t (ap token_of e))
  worker_step-Change r i (claimed t) e =
      start_task-Change i t (Sequence.take_task s.clock (s.sequences t)) refl (ap owns e)
  worker_step-Change r i (running t todo) e = run_instr-Change i t todo (ap owns e)
  worker_step-Change r i (finished t) e =
      releases (omega arith) i t (ap owns e) (λ u. ground arith) (λ j. ground arith)
  worker_step-Change r i (checking t) e =
      same (ground arith) (λ u. ground arith) (λ j. ground arith)
  worker_step-Change r i (requeue t) e = same (omega arith) (λ u. refl) (λ j. ground arith)
  worker_step-Change r i (panicked t) e = unchanged s
