-- ===== src/Pool/Counting/Step.antt =====
-- Every step of a worker, and every event, keeps the count.
use rust_base.Base.{
  ℕ, ◌≡◌, ◌≢◌, refl, ap, ◌∙◌, Bool, true, false, ◌&&◌, ltb, some, List, [], ◌∷◌, arith, inl, inr,
  Bool-cases, subst,
}
use native.Mathlib.Decide.{ℕ_discrete}
use rust_base.Task.{is_skip_on_shutdown}
use rust_base.TaskTracker
use rust_base.TaskTracker.{TaskTracker, after_run_task}
use rust_base.Sequence
use rust_base.Sequence.{Sequence, RunStatus}
use rust_base.Sequence.Claim.{will_run_task_free, will_run_task_taken}
use rust_base.ThreadGroup
use rust_base.ThreadGroup.{ThreadGroup, Work}
use rust_base.Pool.Callback.{Body, Instr, call, report, post_reply, check, after}
use rust_base.Pool.Post.{runner_post_task}
use rust_base.Pool.Worker.{take_work, claim, run_instr, worker_step}
use rust_base.Pool.{
  Pc, idle, exited, got, claimed, running, finished, checking, requeue, panicked, System,
  set_worker, set_sequence, push_source,
}
use rust_base.Pool.Exclusion.{owns, IsExclusive, flag_of}
use rust_base.Pool.Counting.{blocks, queue_load, load, Formed}
use rust_base.Pool.Counting.Invariant.{Counted, todo_of, still-Counted}
use rust_base.Pool.Counting.Post.{runner_post_task-Counted}
use rust_base.Pool.Counting.Taken.{take_task-Handed}
use rust_base.Pool.Counting.Worker.{stay-Counted, start_task-Counted, after-Counted}

module _ (s : System) (e : IsExclusive s) (x : Counted s) where
  -- A change of what the count does not depend on.
  pub beside-Counted :
      (s' : System)
      → s'.sequences ≡ s.sequences
      → s'.workers ≡ s.workers
      → s'.next_token ≡ s.next_token
      → s'.tracker ≡ s.tracker
      → s'.phase ≡ s.phase
      → Counted s'
  beside-Counted s' q w n k p =
      still-Counted x s' (λ i t. rw w (x.hand i t)) (λ t. rw q (x.free t)) (λ i. rw w (x.formed i))
        (λ i t. rw w (x.calm i t)) n k p (λ t. ap (λ m. queue_load (m t)) q)

  workers_after_post : (t : ℕ) (b : Body) → (runner_post_task t b s).1.workers ≡ s.workers
  unfolding runner_post_task set_sequence
  workers_after_post t b = elim (Bool-cases (ltb t s.next_token)) [
    | inl h ↦ rw (h, runner_post_task) refl
    | inr h ↦ rw (h, runner_post_task) refl
  ]

  run_instr-Counted :
      (i t : ℕ) (todo : List Instr) → s.workers i ≡ running t todo → Counted (run_instr i t todo s)
  unfolding run_instr
  run_instr-Counted i t [] d = stay-Counted s x i (finished t) (λ u p. h u p) tt (λ u p. cc)
    where
      h : (u : ℕ) → some t ≡ some u → x.under_way u ≡ 0
      h u p =
          let l = ap (λ c. load (todo_of c)) d in let z = x.hand i u (ap owns d ∙ p) in omega arith
  run_instr-Counted i t (call f ∷ rest) d =
      stay-Counted (record s { log = (t, f) ∷ s.log }) y i (running t rest)
        (λ u p. y.hand i u (ap owns d ∙ p) ∙ ap (λ c. load (todo_of c)) d)
        (subst (λ c. Formed (todo_of c)) d (x.formed i)) (λ u p. cc)
    where
      y : Counted (record s { log = (t, f) ∷ s.log })
      y = beside-Counted _ refl refl refl refl refl
  run_instr-Counted i t (report ∷ rest) d =
      stay-Counted s x i (running t rest)
        (λ u p. x.hand i u (ap owns d ∙ p) ∙ ap (λ c. load (todo_of c)) d)
        (subst (λ c. Formed (todo_of c)) d (x.formed i)) (λ u p. cc)
  run_instr-Counted i t (post_reply r b ∷ rest) d =
      stay-Counted (runner_post_task r b s).1 y i (running t rest)
        (λ u p. y.hand i u (ap owns (d' ∙ d) ∙ p) ∙ ap (λ c. load (todo_of c)) (d' ∙ d))
        (subst (λ c. Formed (todo_of c)) d (x.formed i)) (λ u p. cc)
    where
      y : Counted (runner_post_task r b s).1
      y = runner_post_task-Counted s e x r b

      d' : (runner_post_task r b s).1.workers i ≡ s.workers i
      d' = ap (λ w. w i) (workers_after_post r b)
  run_instr-Counted i t (check traits ∷ rest) d =
      elim (Bool-cases (
        TaskTracker.is_shutdown_started s.tracker
        && is_skip_on_shutdown traits.shutdown_behavior)) [
          | inl h ↦
              rw (h, run_instr)
                (stay-Counted s x i (running t []) (λ u p. skipped u p (ground arith)) tt
                  (λ u p. cc))
          | inr h ↦
              rw (h, run_instr)
                (stay-Counted s x i (running t rest)
                  (λ u p. x.hand i u (ap owns d ∙ p) ∙ ap (λ c. load (todo_of c)) d) formed_rest.1
                  (λ u p. cc))
        ]
    where
      formed_rest : (load rest ≡ blocks traits) × Formed rest
      formed_rest = subst (λ c. Formed (todo_of c)) d (x.formed i)

      skipped :
          (u : ℕ)
          → some t ≡ some u
          → is_skip_on_shutdown traits.shutdown_behavior ≡ true
          → x.under_way u ≡ 0
      skipped u p h =
          let z = x.hand i u (ap owns d ∙ p) ∙ ap (λ c. load (todo_of c)) d ∙ formed_rest.0 in
          ground arith
  run_instr-Counted i t (after traits ∷ rest) d =
      after-Counted s x i e t (ap owns d) traits rest _ refl (ap todo_of d) _ refl

  -- The flag is set, and the worker goes on.
  flag_set :
      (i t : ℕ) (pc : Pc)
      → ((u : ℕ) → owns pc ≡ some u → x.under_way u ≡ load (todo_of pc))
      → Formed (todo_of pc)
      → ((u : ℕ) → pc ≢ panicked u)
      → Counted (set_worker i pc (set_sequence t (record (s.sequences t) { has_worker = true }) s))
  unfolding set_worker set_sequence
  flag_set i t pc h f c =
      still-Counted y _ y.hand (λ u p. y.free u (ground arith)) y.formed y.calm refl refl refl
        (λ u. ground arith)
    where
      y : Counted (set_worker i pc s)
      y = stay-Counted s x i pc h f c

  -- The flag is cleared by the owner, who has nothing more to give back.
  flag_cleared :
      (i t : ℕ)
      → s.workers i ≡ finished t
      → Counted
          (set_worker i (checking t) (set_sequence t (Sequence.clear_worker (s.sequences t)) s))
  unfolding set_sequence Sequence.clear_worker
  flag_cleared i t d =
      stay-Counted (set_sequence t (Sequence.clear_worker (s.sequences t)) s)
        (still-Counted x _ x.hand cleared x.formed x.calm refl refl refl (λ u. ground arith)) i
        (checking t) (λ u p. absurd cc) tt (λ u p. cc)
    where
      cleared :
          (u : ℕ)
          → flag_of (set_sequence t (Sequence.clear_worker (s.sequences t)) s) u ≡ false
          → x.under_way u ≡ 0
      cleared u p = elim (ℕ_discrete t u) [
        | yes same ↦
            subst (λ v. x.under_way v ≡ 0) same
              (x.hand i t (ap owns d) ∙ ap (λ c. load (todo_of c)) d)
        | no other ↦ x.free u (ground arith)
      ]

  claim-Counted :
      (i t : ℕ) (b : Bool)
      → flag_of s t ≡ b
      → Counted (claim i t s (Sequence.will_run_task (s.sequences t)))
  unfolding claim
  claim-Counted i t true f =
      rw (will_run_task_taken (s.sequences t) f)
        (flag_set i t idle (λ u p. absurd cc) tt (λ u p. cc))
  claim-Counted i t false f =
      rw (will_run_task_free (s.sequences t) f)
        (flag_set i t (claimed t) (λ u p. x.free u (ground arith)) tt (λ u p. cc))

  take_work-Counted : (i : ℕ) (r : Work × ThreadGroup) → Counted (take_work i s r)
  unfolding take_work
  take_work-Counted i (Work.leave, g) = stay-Counted s x i exited (λ u p. absurd cc) tt (λ u p. cc)
  take_work-Counted i (Work.wait, g) = x
  take_work-Counted i (Work.run t, g) =
      stay-Counted (record s { group = g }) (beside-Counted _ refl refl refl refl refl) i (got t)
        (λ u p. absurd cc) tt (λ u p. cc)

  pub worker_step-Counted : (i : ℕ) (pc : Pc) → s.workers i ≡ pc → Counted (worker_step i pc s)
  unfolding worker_step Sequence.clear_worker Sequence.take_task set_sequence push_source
  worker_step-Counted i idle d = take_work-Counted i (ThreadGroup.get_work s.group)
  worker_step-Counted i exited d = x
  worker_step-Counted i (got t) d = claim-Counted i t (flag_of s t) refl
  worker_step-Counted i (claimed t) d =
      start_task-Counted s x i e t (ap owns d) (Sequence.take_task s.clock (s.sequences t))
        (ap todo_of d) refl (take_task-Handed s.clock (s.sequences t))
  worker_step-Counted i (running t todo) d = run_instr-Counted i t todo d
  worker_step-Counted i (finished t) d = flag_cleared i t d
  worker_step-Counted i (checking t) d =
      elim (Bool-cases (Sequence.has_ready_tasks s.clock (s.sequences t))) [
        | inl h ↦
            rw (h, worker_step) (stay-Counted s x i (requeue t) (λ u p. absurd cc) tt (λ u p. cc))
        | inr h ↦ rw (h, worker_step) (stay-Counted s x i idle (λ u p. absurd cc) tt (λ u p. cc))
      ]
  worker_step-Counted i (requeue t) d =
      stay-Counted (push_source t s) (beside-Counted _ refl refl refl refl refl) i idle
        (λ u p. absurd cc) tt (λ u p. cc)
  worker_step-Counted i (panicked t) d = x
