-- ===== src/Pool/InRange.antt =====
-- Every token that is in use was given out: the pool never mixes up two sequences.
pub mod Step
pub mod Reach
pub mod Worker
use rust_base.Base.{
  ℕ, suc, ◌+◌, ◌<◌, ◌≤◌, ◌≡◌, refl, sym, ◌∙◌, subst, Bool, true, false, Option, none, some, List,
  [], ◌∷◌, All, All-map, update, ltb, if◌then◌else◌, arith, Bool-cases, inl, inr,
}
use mathlib.Core.Option.{some-injective}
use native.Mathlib.Decide.{ℕ_discrete}
use rust_base.ThreadGroup
use rust_base.ThreadGroup.{ThreadGroup, Work}
use rust_base.ThreadGroup.Popped.{get_work-Kept, Kept}
use rust_base.TaskTracker.{TaskTracker}
use rust_base.Task.{TaskTraits}
use rust_base.Pool.Callback.{Closure, Body, Instr}
use rust_base.Pool.Worker.{take_work, claim, start_task, finish_guarded, run_instr, worker_step}
use rust_base.Sequence.{Sequence, RunStatus}
use rust_base.Task.{Task}
use rust_base.PriorityQueue
use rust_base.Pool.{set_worker, set_sequence, push_source}
use rust_base.Pool.Post.{
  one_shot, one_shot_delayed, create_sequenced_task_runner, runner_post_task,
  runner_post_delayed_task,
}
use rust_base.Pool.{
  Pc, idle, exited, got, claimed, running, finished, checking, requeue, panicked, System,
}

-- The sequence that a worker has in hand.
abbrev pub token_of : Pc → Option ℕ
token_of idle = none
token_of exited = none
token_of (got t) = some t
token_of (claimed t) = some t
token_of (running t _) = some t
token_of (finished t) = some t
token_of (checking t) = some t
token_of (requeue t) = some t
token_of (panicked t) = some t

pub record InRange (s : System) : Type 0 where
  pub queued : All (λ e. e.task_source < s.next_token) s.group.priority_queue.heap
  pub flying : All (λ t. t < s.next_token) s.in_flight
  pub waiting : All (λ e. e.value.sequence < s.next_token) s.delayed.heap
  pub flying_delayed : All (λ p. p.1 < s.next_token) s.in_flight_delayed
  pub held : (i t : ℕ) → token_of (s.workers i) ≡ some t → t < s.next_token

pub held-update :
    (n : ℕ) (w : ℕ → Pc) (i : ℕ) (pc : Pc)
    → ((j t : ℕ) → token_of (w j) ≡ some t → t < n)
    → ((t : ℕ) → token_of pc ≡ some t → t < n)
    → (j t : ℕ) → token_of (update w i pc j) ≡ some t
    → t < n
held-update n w i pc h k j t e = ground (arith, h j t, k t)

-- Tokens of the bodies' replies play no part: a post to a runner that was never made does nothing.
grow : (n : ℕ) (t : ℕ) → t < n → t < n + 1
grow n t h = omega arith

-- A post that gives out a token, and puts it under way at once or at a deadline.
grow-InRange :
    (s s' : System)
    → InRange s
    → s'.next_token ≡ s.next_token + 1
    → s'.group ≡ s.group
    → s'.delayed ≡ s.delayed
    → s'.workers ≡ s.workers
    → All (λ t. t < s.next_token + 1) s'.in_flight
    → All (λ p. p.1 < s.next_token + 1) s'.in_flight_delayed
    → InRange s'
grow-InRange s s' h n g d w f fd = record {
  queued =
      rw (n, g)
        (All-map _ _ (λ e k. grow s.next_token e.task_source k) s.group.priority_queue.heap
          h.queued);
  flying = rw n f;
  waiting =
      rw (n, d)
        (All-map _ _ (λ e k. grow s.next_token e.value.sequence k) s.delayed.heap h.waiting);
  flying_delayed = rw n fd;
  held = λ i t. rw (n, w) (λ e. grow s.next_token t (h.held i t e));
}

module _ (s : System) (h : InRange s) where
  more : All (λ t. t < s.next_token + 1) s.in_flight
  more = All-map _ _ (λ t k. grow s.next_token t k) s.in_flight h.flying

  more_delayed : All (λ p. p.1 < s.next_token + 1) s.in_flight_delayed
  more_delayed = All-map _ _ (λ p k. grow s.next_token p.1 k) s.in_flight_delayed h.flying_delayed

  pub one_shot-InRange : (traits : TaskTraits) (c : Closure) → InRange (one_shot traits c s)
  unfolding one_shot
  one_shot-InRange traits c =
      grow-InRange s _ h refl refl refl refl (omega arith, more) more_delayed

  pub one_shot_delayed-InRange :
      (traits : TaskTraits) (c : Closure) (delay : ℕ) → InRange (one_shot_delayed traits c delay s)
  unfolding one_shot_delayed
  one_shot_delayed-InRange traits c delay =
      grow-InRange s _ h refl refl refl refl more (omega arith, more_delayed)

  pub create-InRange : (traits : TaskTraits) → InRange (create_sequenced_task_runner traits s)
  unfolding create_sequenced_task_runner
  create-InRange traits = grow-InRange s _ h refl refl refl refl more more_delayed

  pub tracker-InRange : (t : TaskTracker) → InRange (record s { tracker = t })
  tracker-InRange t = record {
    queued = h.queued;
    flying = h.flying;
    waiting = h.waiting;
    flying_delayed = h.flying_delayed;
    held = h.held;
  }

  pub runner_post_task-InRange : (t : ℕ) (b : Body) → InRange (runner_post_task t b s).1
  unfolding runner_post_task
  runner_post_task-InRange t b = elim (Bool-cases (ltb t s.next_token)) [
    | inl e ↦
        rw (e, runner_post_task)
          (record {
            queued = h.queued;
            flying = (ground arith, h.flying);
            waiting = h.waiting;
            flying_delayed = h.flying_delayed;
            held = h.held;
          })
    | inr e ↦ rw (e, runner_post_task) h
  ]

  pub runner_post_delayed_task-InRange :
      (t : ℕ) (b : Body) (delay : ℕ) → InRange (runner_post_delayed_task t b delay s).1
  unfolding runner_post_delayed_task
  runner_post_delayed_task-InRange t b delay = elim (Bool-cases (ltb t s.next_token)) [
    | inl e ↦
        rw (e, runner_post_delayed_task)
          (record {
            queued = h.queued;
            flying = h.flying;
            waiting = h.waiting;
            flying_delayed = (ground arith, h.flying_delayed);
            held = h.held;
          })
    | inr e ↦ rw (e, runner_post_delayed_task) h
  ]

  -- A worker goes on, and the shared queues stay as they are.
  pub moved-InRange :
      (i : ℕ) (pc : Pc)
      → ((t : ℕ) → token_of pc ≡ some t → t < s.next_token)
      → InRange (set_worker i pc s)
  unfolding set_worker
  moved-InRange i pc k = record {
    queued = h.queued;
    flying = h.flying;
    waiting = h.waiting;
    flying_delayed = h.flying_delayed;
    held = held-update s.next_token s.workers i pc h.held k;
  }

  pub store-InRange : (t : ℕ) (q : Sequence Closure) → InRange (set_sequence t q s)
  unfolding set_sequence
  store-InRange t q = record {
    queued = h.queued;
    flying = h.flying;
    waiting = h.waiting;
    flying_delayed = h.flying_delayed;
    held = h.held;
  }

  pub push_source-InRange : (t : ℕ) → t < s.next_token → InRange (push_source t s)
  unfolding push_source PriorityQueue.push
  push_source-InRange t k = record {
    queued = (k, h.queued);
    flying = h.flying;
    waiting = h.waiting;
    flying_delayed = h.flying_delayed;
    held = h.held;
  }
