-- ===== src/Pool/Attended/Instr.antt =====
-- What a worker does, whole, leaves every sequence attended.
use rust_base.Base.{
  ℕ, ◌≡◌, refl, sym, ap, ◌∙◌, inl, inr, Bool, ◌&&◌, some, none, Option, List, [], ◌∷◌, Bool-cases,
  arith,
}
use rust_base.PriorityQueue.{entry_ord}
use rust_base.Sequence
use rust_base.Sequence.{Entry, Sequence, SequenceInner, RunStatus}
use rust_base.Sequence.Kept.{take_task-All}
use rust_base.Task.{is_skip_on_shutdown}
use rust_base.TaskTracker
use rust_base.TaskTracker.{TaskTracker}
use rust_base.ThreadGroup
use rust_base.ThreadGroup.{ThreadGroup, Work}
use rust_base.ThreadGroup.Popped.{get_work-Restored}
use rust_base.Pool.Callback.{Instr, call, report, post_reply, check, after}
use rust_base.Pool.Post.{runner_post_task}
use rust_base.Pool.Worker.{finish_guarded, run_instr, worker_step}
use rust_base.Pool.{
  Pc, idle, exited, got, claimed, running, finished, checking, requeue, panicked, System,
}
use rust_base.Pool.InRange.{token_of}
use rust_base.Pool.Exclusion.{Exclusion, owns, flag_of, owner_of}
use rust_base.Pool.Attended.{
  Covered, queued, flying, held, Pending, listed, announced, Attended, Attended-mono,
}
use rust_base.Pool.Attended.Post.{runner_post_task-Attended}
use rust_base.Pool.Attended.Worker.{moved-Attended, take_work-Attended}
use rust_base.Pool.Attended.Hold.{
  kept-Attended, claim-Attended, start_task-Attended, rested-Attended, requeued-Attended,
}

module _ (s : System) (a : (t : ℕ) → Attended s t) where
  -- A change to the tracker or to the log.
  aside-Attended :
      (k : TaskTracker) (l : List (ℕ × ℕ)) (u : ℕ) → Attended (record s { tracker = k; log = l }) u
  aside-Attended k l u = Attended-mono s _ u refl grown pending (omega arith) (a u)
    where
      grown : Covered s u → Covered (record s { tracker = k; log = l }) u
      grown (queued h) = queued h
      grown (flying h) = flying h
      grown (held j h) = held j h

      pending : (r : ℕ) → Pending s u r → Pending (record s { tracker = k; log = l }) u r
      pending r (listed h) = listed h
      pending r (announced h) = announced h

  finish_guarded-Attended :
      (i t : ℕ) (rest : List Instr) (r : Option (TaskTracker × Bool))
      → token_of (s.workers i) ≡ some t
      → (u : ℕ) → Attended (finish_guarded i t rest s r) u
  unfolding finish_guarded
  finish_guarded-Attended i t rest none h u = moved-Attended s a i (panicked t) (λ v f. cc) u
  finish_guarded-Attended i t rest (some (k, b)) h u =
      moved-Attended (record s { tracker = k; log = s.log }) (aside-Attended k s.log) i
        (running t rest) (λ v f. cc) u

  run_instr-Attended :
      (i t : ℕ) (todo : List Instr)
      → token_of (s.workers i) ≡ some t
      → (u : ℕ) → Attended (run_instr i t todo s) u
  unfolding run_instr
  run_instr-Attended i t [] h u = moved-Attended s a i (finished t) (λ v f. cc) u
  run_instr-Attended i t (call f ∷ rest) h u =
      moved-Attended (record s { tracker = s.tracker; log = (t, f) ∷ s.log })
        (aside-Attended s.tracker ((t, f) ∷ s.log)) i (running t rest) (λ v f. cc) u
  run_instr-Attended i t (report ∷ rest) h u = moved-Attended s a i (running t rest) (λ v f. cc) u
  run_instr-Attended i t (post_reply r b ∷ rest) h u =
      moved-Attended (runner_post_task r b s).1 (runner_post_task-Attended s a r b) i
        (running t rest) (λ v f. ground arith) u
  run_instr-Attended i t (check traits ∷ rest) h u =
      elim (Bool-cases (
        TaskTracker.is_shutdown_started s.tracker
        && is_skip_on_shutdown traits.shutdown_behavior)) [
          | inl e ↦ rw (e, run_instr) (moved-Attended s a i (running t []) (λ v f. cc) u)
          | inr e ↦ rw (e, run_instr) (moved-Attended s a i (running t rest) (λ v f. cc) u)
        ]
  run_instr-Attended i t (after traits ∷ rest) h u =
      finish_guarded-Attended i t rest (TaskTracker.after_run_task traits s.tracker) h u

  pub worker_step-Attended :
      Exclusion (flag_of s) (owner_of s)
      → (i : ℕ) (pc : Pc) → s.workers i ≡ pc
      → (u : ℕ) → Attended (worker_step i pc s) u
  unfolding worker_step Sequence.clear_worker
  worker_step-Attended x i idle e u =
      take_work-Attended s a i (ThreadGroup.get_work s.group) (λ P. get_work-Restored P s.group)
        (ap token_of e) u
  worker_step-Attended x i exited e u = a u
  worker_step-Attended x i (got t) e u =
      claim-Attended s a i t (ap token_of e) (flag_of s t) refl (ap owns e) x u
  worker_step-Attended x i (claimed t) e u =
      start_task-Attended s a i t (ap token_of e) (Sequence.take_task s.clock (s.sequences t))
        (λ P h. take_task-All P s.clock (s.sequences t) h) u
  worker_step-Attended x i (running t todo) e u = run_instr-Attended i t todo (ap token_of e) u
  worker_step-Attended x i (finished t) e u =
      kept-Attended s a i t (ap token_of e) _ (checking t) refl (λ P h. h) u
  worker_step-Attended x i (checking t) e u =
      elim (Bool-cases (Sequence.has_ready_tasks s.clock (s.sequences t))) [
        | inl h ↦
            rw (h, worker_step)
              (moved-Attended s a i (requeue t) (λ v f. sym (ap token_of e) ∙ f) u)
        | inr h ↦ rw (h, worker_step) (rested-Attended s a i t (ap token_of e) h u)
      ]
  worker_step-Attended x i (requeue t) e u = requeued-Attended s a i t (ap token_of e) u
  worker_step-Attended x i (panicked t) e u = a u
