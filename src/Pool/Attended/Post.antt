-- ===== src/Pool/Attended/Post.antt =====
-- A post leaves every sequence attended.
use rust_base.Base.{
  ℕ, ◌+◌, refl, ap, subst, update_self, update-ne, inl, inr, ◌∷◌, All-map, ltb, Bool-cases, arith,
}
use native.Mathlib.Decide.{ℕ_discrete}
use rust_base.Sequence.{Entry, push_task, push_delayed_task}
use rust_base.Task.{TaskTraits, new_task}
use rust_base.TaskTracker.{TaskTracker}
use rust_base.Pool.Callback.{Closure, Body, plain, monitor}
use rust_base.Pool.Post.{
  one_shot, one_shot_delayed, create_sequenced_task_runner, runner_post_task,
  runner_post_delayed_task,
}
use rust_base.Pool.{System, set_sequence}
use rust_base.Pool.Attended.{
  Covered, queued, flying, held, Pending, listed, announced, Awaited, Attended, resting, covered,
  Covered-at, resting_at, Attended-mono, Attended-Awaited,
}

module _ (s : System) (a : (t : ℕ) → Attended s t) where
  -- A new sequence under way, with whatever tasks.
  pub one_shot-Attended :
      (traits : TaskTraits) (c : Closure) (k : TaskTracker) (u : ℕ)
      → Attended (one_shot traits c (record s { tracker = k })) u
  unfolding one_shot
  one_shot-Attended traits c k u = elim (ℕ_discrete s.next_token u) [
    | yes e ↦ subst (Attended _) e (
        Covered-at _ s.next_token _ (update_self s.sequences s.next_token _) (flying (ground arith))
          tt)
    | no h ↦
        Attended-mono s _ u (ap (λ q. q.inner) (update-ne s.sequences s.next_token u _ h)) grown
          pending (omega arith) (a u)
  ]
    where
      grown : Covered s u → Covered (one_shot traits c (record s { tracker = k })) u
      grown (queued h) = queued h
      grown (flying h) = flying (ground arith)
      grown (held i h) = held i h

      pending : (r : ℕ) → Pending s u r → Pending (one_shot traits c (record s { tracker = k })) u r
      pending r (listed h) = listed h
      pending r (announced h) = announced h

  pub one_shot_delayed-Attended :
      (traits : TaskTraits) (c : Closure) (delay : ℕ) (k : TaskTracker) (u : ℕ)
      → Attended (one_shot_delayed traits c delay (record s { tracker = k })) u
  unfolding one_shot_delayed
  one_shot_delayed-Attended traits c delay k u = elim (ℕ_discrete s.next_token u) [
    | yes e ↦ subst (Attended _) e (
        resting_at _ s.next_token _ (update_self s.sequences s.next_token _) refl
          (announced (ground arith), tt))
    | no h ↦
        Attended-mono s _ u (ap (λ q. q.inner) (update-ne s.sequences s.next_token u _ h)) grown
          pending (omega arith) (a u)
  ]
    where
      grown : Covered s u → Covered (one_shot_delayed traits c delay (record s { tracker = k })) u
      grown (queued h) = queued h
      grown (flying h) = flying h
      grown (held i h) = held i h

      pending :
          (r : ℕ)
          → Pending s u r
          → Pending (one_shot_delayed traits c delay (record s { tracker = k })) u r
      pending r (listed h) = listed h
      pending r (announced h) = announced (ground arith)

  pub create-Attended :
      (traits : TaskTraits) (u : ℕ) → Attended (create_sequenced_task_runner traits s) u
  unfolding create_sequenced_task_runner
  create-Attended traits u = elim (ℕ_discrete s.next_token u) [
    | yes e ↦
        subst (Attended _) e
          (resting_at _ s.next_token _ (update_self s.sequences s.next_token _) refl tt)
    | no h ↦
        Attended-mono s _ u (ap (λ q. q.inner) (update-ne s.sequences s.next_token u _ h)) grown
          pending (omega arith) (a u)
  ]
    where
      grown : Covered s u → Covered (create_sequenced_task_runner traits s) u
      grown (queued h) = queued h
      grown (flying h) = flying h
      grown (held i h) = held i h

      pending : (r : ℕ) → Pending s u r → Pending (create_sequenced_task_runner traits s) u r
      pending r (listed h) = listed h
      pending r (announced h) = announced h

  -- A push into a shared sequence, with the call of `push_task_source` under way.
  pushed : ℕ → Body → System
  pushed t b =
      set_sequence t (push_task (new_task (plain (monitor s.monitored b))) (s.sequences t))
        (record s { in_flight = t ∷ s.in_flight })

  pushed-Attended : (t : ℕ) (b : Body) (u : ℕ) → Attended (pushed t b) u
  unfolding pushed set_sequence push_task
  pushed-Attended t b u = elim (ℕ_discrete t u) [
    | yes e ↦ subst (Attended _) e (
        Covered-at _ t _ (update_self s.sequences t _) (flying (ground arith))
          (All-map _ _ awaited (s.sequences t).inner.delayed_queue (Attended-Awaited s t (a t))))
    | no h ↦
        Attended-mono s _ u (ap (λ q. q.inner) (update-ne s.sequences t u _ h)) grown pending
          (omega arith) (a u)
  ]
    where
      grown : Covered s u → Covered (pushed t b) u
      grown (queued h) = queued h
      grown (flying h) = flying (ground arith)
      grown (held i h) = held i h

      pending : {v : ℕ} (r : ℕ) → Pending s v r → Pending (pushed t b) v r
      pending r (listed h) = listed h
      pending r (announced h) = announced h

      awaited : (x : Entry Closure) → Awaited s t x → Awaited (pushed t b) t x
      awaited x (inl h) = inl (pending x.value.ready_time h)
      awaited x (inr h) = inr h

  pub runner_post_task-Attended : (t : ℕ) (b : Body) (u : ℕ) → Attended (runner_post_task t b s).1 u
  unfolding runner_post_task pushed
  runner_post_task-Attended t b u = elim (Bool-cases (ltb t s.next_token)) [
    | inl e ↦ rw (e, runner_post_task) (pushed-Attended t b u)
    | inr e ↦ rw (e, runner_post_task) (a u)
  ]

  pushed_delayed : ℕ → Body → ℕ → System
  pushed_delayed t b delay =
      set_sequence t
        (push_delayed_task (new_task (plain (monitor s.monitored b))) (s.clock + delay)
          (s.sequences t))
        (record s { in_flight_delayed = (s.clock + delay, t) ∷ s.in_flight_delayed })

  pushed_delayed-Attended :
      (t : ℕ) (b : Body) (delay : ℕ) (u : ℕ) → Attended (pushed_delayed t b delay) u
  unfolding pushed_delayed set_sequence push_delayed_task
  pushed_delayed-Attended t b delay u = elim (ℕ_discrete t u) [
    | yes e ↦ subst (Attended _) e (at_token (a t))
    | no h ↦
        Attended-mono s _ u (ap (λ q. q.inner) (update-ne s.sequences t u _ h)) grown pending
          (omega arith) (a u)
  ]
    where
      grown : {v : ℕ} → Covered s v → Covered (pushed_delayed t b delay) v
      grown (queued h) = queued h
      grown (flying h) = flying h
      grown (held i h) = held i h

      pending : {v : ℕ} (r : ℕ) → Pending s v r → Pending (pushed_delayed t b delay) v r
      pending r (listed h) = listed h
      pending r (announced h) = announced (ground arith)

      awaited : (x : Entry Closure) → Awaited s t x → Awaited (pushed_delayed t b delay) t x
      awaited x (inl h) = inl (pending x.value.ready_time h)
      awaited x (inr h) = inr h

      at_token : Attended s t → Attended (pushed_delayed t b delay) t
      at_token (resting i d) = resting_at _ t _ (update_self s.sequences t _) i (
        announced (ground arith),
        All-map _ _ (λ x h. pending x.value.ready_time h) (s.sequences t).inner.delayed_queue d,
      )
      at_token (covered c d) = Covered-at _ t _ (update_self s.sequences t _) (grown c) (
        inl (announced (ground arith)),
        All-map _ _ awaited (s.sequences t).inner.delayed_queue d,
      )

  pub runner_post_delayed_task-Attended :
      (t : ℕ) (b : Body) (delay : ℕ) (u : ℕ) → Attended (runner_post_delayed_task t b delay s).1 u
  unfolding runner_post_delayed_task pushed_delayed
  runner_post_delayed_task-Attended t b delay u = elim (Bool-cases (ltb t s.next_token)) [
    | inl e ↦ rw (e, runner_post_delayed_task) (pushed_delayed-Attended t b delay u)
    | inr e ↦ rw (e, runner_post_delayed_task) (a u)
  ]
