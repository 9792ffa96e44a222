-- ===== src/Pool/Counting/Post.antt =====
-- The posts keep the count.
use rust_base.Base.{
  ℕ, ◌+◌, ◌≡◌, refl, sym, ap, ◌∙◌, Bool, true, false, if◌then◌else◌, ltb, List, [], ◌∷◌, ◌++◌,
  update, update_self, update-ne, arith, inl, inr, Bool-cases, subst,
}
use native.Mathlib.Decide.{ℕ_discrete}
use rust_base.Base.Heap
use rust_base.Task.{Task, TaskTraits, new_task, is_block_shutdown, is_continue_on_shutdown}
use rust_base.TaskTracker.{TaskTracker, will_post_task}
use rust_base.Sequence
use rust_base.Sequence.{Sequence, push_task, push_delayed_task}
use rust_base.Pool.Callback.{Body, Closure, wrap}
use rust_base.Pool.Post.{
  one_shot, one_shot_delayed, with_tracker, post_task, post_delayed_task,
  create_sequenced_task_runner, runner_post_task, runner_post_delayed_task,
}
use rust_base.Pool.{System}
use rust_base.Pool.Exclusion.{IsExclusive, flag_of}
use rust_base.Pool.Counting.{blocks, closure_load, tasks_load, queue_load}
use rust_base.Pool.Counting.Invariant.{Counted, still-Counted, new-Counted}

-- What the tracker makes of a post.
Outcome : TaskTraits → TaskTracker → Bool × TaskTracker → Type 0
Outcome traits t (false, t') = t' ≡ t
Outcome traits t (true, t') =
    (t'.shutdown_started ≡ t.shutdown_started)
    × (t'.num_tasks_blocking_shutdown ≡ t.num_tasks_blocking_shutdown + blocks traits)
    × (t.shutdown_started ≡ true → blocks traits ≡ 0)

will_post_task-Outcome :
    (traits : TaskTraits) (t : TaskTracker) → Outcome traits t (will_post_task traits t)
unfolding will_post_task Outcome
will_post_task-Outcome traits t = go t.shutdown_started refl
  where
    late :
        (b : Bool)
        → is_continue_on_shutdown traits.shutdown_behavior ≡ b
        → t.shutdown_started ≡ true
        → Outcome traits t (b, t)
    late false e h = refl
    late true e h = (refl, ground arith, λ k. ground arith)

    early :
        (b : Bool)
        → is_block_shutdown traits.shutdown_behavior ≡ b
        → t.shutdown_started ≡ false
        → Outcome traits t (
            if b
            then (
              true,
              record t { num_tasks_blocking_shutdown = t.num_tasks_blocking_shutdown + 1 },
            )
            else (true, t))
    early true e h = (refl, ground arith, λ k. absurd cc)
    early false e h = (refl, ground arith, λ k. absurd cc)

    go :
        (b : Bool)
        → t.shutdown_started ≡ b
        → Outcome traits t (
            if b
            then (is_continue_on_shutdown traits.shutdown_behavior, t)
            else (if is_block_shutdown traits.shutdown_behavior
                then (
                  true,
                  record t { num_tasks_blocking_shutdown = t.num_tasks_blocking_shutdown + 1 },
                )
                else (true, t)))
    go true h = late (is_continue_on_shutdown traits.shutdown_behavior) refl h
    go false h = early (is_block_shutdown traits.shutdown_behavior) refl h

pub tasks_load-append :
    (xs ys : List (Task Closure)) → tasks_load (xs ++ ys) ≡ tasks_load xs + tasks_load ys
tasks_load-append [] ys = omega arith
tasks_load-append (x ∷ xs) ys = omega (arith, tasks_load-append xs ys)

module _ (s : System) (e : IsExclusive s) (x : Counted s) where
  pub one_shot-Counted :
      (traits : TaskTraits) (c : Closure) (k : TaskTracker)
      → k.shutdown_started ≡ s.tracker.shutdown_started
      → k.num_tasks_blocking_shutdown ≡ s.tracker.num_tasks_blocking_shutdown + closure_load c
      → (s.tracker.shutdown_started ≡ true → closure_load c ≡ 0)
      → Counted (one_shot traits c (record s { tracker = k }))
  unfolding one_shot push_task Sequence.new
  one_shot-Counted traits c k a n b =
      new-Counted x _ idle refl refl (λ u p. ground (arith, idle, x.free u)) refl a
        (n ∙ ap (λ m. s.tracker.num_tasks_blocking_shutdown + m) (sym held)) (λ p. held ∙ b p)
        (λ u h. update-ne s.sequences s.next_token u _ h)
    where
      idle : x.under_way s.next_token ≡ 0
      idle = x.free s.next_token (e.fresh s.next_token (omega arith))

      held :
          queue_load (
            update s.sequences s.next_token
              (push_task (new_task c) (Sequence.new s.next_token traits))
              s.next_token)
          ≡ closure_load c
      held = ap queue_load (update_self s.sequences s.next_token _) ∙ omega arith

  pub one_shot_delayed-Counted :
      (traits : TaskTraits) (c : Closure) (delay : ℕ) (k : TaskTracker)
      → k.shutdown_started ≡ s.tracker.shutdown_started
      → k.num_tasks_blocking_shutdown ≡ s.tracker.num_tasks_blocking_shutdown + closure_load c
      → (s.tracker.shutdown_started ≡ true → closure_load c ≡ 0)
      → Counted (one_shot_delayed traits c delay (record s { tracker = k }))
  unfolding one_shot_delayed push_delayed_task Sequence.new Heap.push
  one_shot_delayed-Counted traits c delay k a n b =
      new-Counted x _ idle refl refl (λ u p. ground (arith, idle, x.free u)) refl a
        (n ∙ ap (λ m. s.tracker.num_tasks_blocking_shutdown + m) (sym held)) (λ p. held ∙ b p)
        (λ u h. update-ne s.sequences s.next_token u _ h)
    where
      idle : x.under_way s.next_token ≡ 0
      idle = x.free s.next_token (e.fresh s.next_token (omega arith))

      held :
          queue_load (
            update s.sequences s.next_token
              (push_delayed_task (new_task c) (s.clock + delay) (Sequence.new s.next_token traits))
              s.next_token)
          ≡ closure_load c
      held = ap queue_load (update_self s.sequences s.next_token _) ∙ omega arith

  pub create-Counted : (traits : TaskTraits) → Counted (create_sequenced_task_runner traits s)
  unfolding create_sequenced_task_runner Sequence.new
  create-Counted traits =
      new-Counted x _ idle refl refl (λ u p. ground (arith, idle, x.free u)) refl refl
        (omega (arith, held)) (λ p. held) (λ u h. update-ne s.sequences s.next_token u _ h)
    where
      idle : x.under_way s.next_token ≡ 0
      idle = x.free s.next_token (e.fresh s.next_token (omega arith))

      held :
          queue_load
            (update s.sequences s.next_token (Sequence.new s.next_token traits) s.next_token)
          ≡ 0
      held = ap queue_load (update_self s.sequences s.next_token _) ∙ omega arith

  -- A refused post.
  refused-Counted : (k : TaskTracker) → k ≡ s.tracker → Counted (record s { tracker = k })
  refused-Counted k h = still-Counted x _ x.hand x.free x.formed x.calm refl h refl (λ t. refl)

  pub post_task-Counted : (traits : TaskTraits) (b : Body) → Counted (post_task traits b s).1
  unfolding post_task Outcome
  post_task-Counted traits b =
      go (will_post_task traits s.tracker) (will_post_task-Outcome traits s.tracker)
    where
      go :
          (r : Bool × TaskTracker)
          → Outcome traits s.tracker r
          → Counted (with_tracker s r (one_shot traits (wrap s.monitored traits b))).1
      go (false, k) o = refused-Counted k o
      go (true, k) o = one_shot-Counted traits (wrap s.monitored traits b) k o.0 o.1 o.2

  pub post_delayed_task-Counted :
      (traits : TaskTraits) (b : Body) (delay : ℕ) → Counted (post_delayed_task traits b delay s).1
  unfolding post_delayed_task Outcome
  post_delayed_task-Counted traits b delay =
      go (will_post_task traits s.tracker) (will_post_task-Outcome traits s.tracker)
    where
      go :
          (r : Bool × TaskTracker)
          → Outcome traits s.tracker r
          → Counted (with_tracker s r (one_shot_delayed traits (wrap s.monitored traits b) delay)).1
      go (false, k) o = refused-Counted k o
      go (true, k) o =
          one_shot_delayed-Counted traits (wrap s.monitored traits b) delay k o.0 o.1 o.2

  -- A push of a callback that no tracker counts into a shared sequence.
  pushed-Counted :
      (t : ℕ) (q : Sequence Closure) (f : List ℕ) (d : List (ℕ × ℕ))
      → q.has_worker ≡ flag_of s t
      → queue_load q ≡ queue_load (s.sequences t)
      → Counted
          (record s { sequences = update s.sequences t q; in_flight = f; in_flight_delayed = d })
  pushed-Counted t q f d h l =
      still-Counted x _ x.hand (λ u p. x.free u (ground arith)) x.formed x.calm refl refl refl
        (λ u. elim (ℕ_discrete t u) [
          | yes same ↦
              subst (λ v. queue_load (update s.sequences t q v) ≡ queue_load (s.sequences v)) same
                (ap queue_load (update_self s.sequences t q) ∙ l)
          | no other ↦ ap queue_load (update-ne s.sequences t u q other)
        ])

  pub runner_post_task-Counted : (t : ℕ) (b : Body) → Counted (runner_post_task t b s).1
  unfolding runner_post_task push_task
  runner_post_task-Counted t b = elim (Bool-cases (ltb t s.next_token)) [
    | inl h ↦
        rw (h, runner_post_task)
          (pushed-Counted t _ _ _ refl
            (omega (arith, tasks_load-append (s.sequences t).inner.immediate_queue)))
    | inr h ↦ rw (h, runner_post_task) x
  ]

  pub runner_post_delayed_task-Counted :
      (t : ℕ) (b : Body) (delay : ℕ) → Counted (runner_post_delayed_task t b delay s).1
  unfolding runner_post_delayed_task push_delayed_task Heap.push
  runner_post_delayed_task-Counted t b delay = elim (Bool-cases (ltb t s.next_token)) [
    | inl h ↦ rw (h, runner_post_delayed_task) (pushed-Counted t _ _ _ refl (omega arith))
    | inr h ↦ rw (h, runner_post_delayed_task) x
  ]
