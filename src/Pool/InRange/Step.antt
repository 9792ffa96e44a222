-- ===== src/Pool/InRange/Step.antt =====
-- Every event keeps the tokens in use among those that were given out.
use rust_base.Base.{
  ℕ, zero, suc, ◌<◌, ◌≡◌, refl, ◌&&◌, Option, none, some, List, [], ◌∷◌, All, inl, inr, Bool-cases,
  arith,
}
use rust_base.Sequence
use rust_base.Task.{is_skip_on_shutdown}
use rust_base.TaskTracker
use rust_base.ThreadGroup
use rust_base.ThreadGroup.Popped.{get_work-Kept}
use rust_base.Pool.Callback.{Instr, call, report, post_reply, check, after}
use rust_base.Pool.Post.{runner_post_task}
use rust_base.Pool.Worker.{run_instr, worker_step}
use rust_base.Pool.Schedule.{extract}
use rust_base.Pool.{
  Pc, idle, exited, got, claimed, running, finished, checking, requeue, panicked, System,
  push_source,
}
use rust_base.Pool.InRange.{
  InRange, token_of, runner_post_task-InRange, push_source-InRange, store-InRange,
}
use rust_base.Pool.InRange.Worker.{
  idle-InRange, keep-InRange, take_work-InRange, claim-InRange, start_task-InRange,
  finish_guarded-InRange,
}

run_instr-InRange :
    (s : System)
    → InRange s
    → (i t : ℕ) (todo : List Instr) → t < s.next_token
    → InRange (run_instr i t todo s)
unfolding run_instr
run_instr-InRange s h i t [] k = keep-InRange s h i (finished t) t refl k
run_instr-InRange s h i t (call f ∷ rest) k =
    keep-InRange (record s { log = (t, f) ∷ s.log })
      (record {
        queued = h.queued;
        flying = h.flying;
        waiting = h.waiting;
        flying_delayed = h.flying_delayed;
        held = h.held;
      })
      i (running t rest) t refl k
run_instr-InRange s h i t (report ∷ rest) k = keep-InRange s h i (running t rest) t refl k
run_instr-InRange s h i t (post_reply r b ∷ rest) k =
    keep-InRange (runner_post_task r b s).1 (runner_post_task-InRange s h r b) i (running t rest) t
      refl (ground arith)
run_instr-InRange s h i t (check traits ∷ rest) k =
    elim (Bool-cases
      (TaskTracker.is_shutdown_started s.tracker && is_skip_on_shutdown traits.shutdown_behavior)) [
        | inl e ↦ rw (e, run_instr) (keep-InRange s h i (running t []) t refl k)
        | inr e ↦ rw (e, run_instr) (keep-InRange s h i (running t rest) t refl k)
      ]
run_instr-InRange s h i t (after traits ∷ rest) k =
    finish_guarded-InRange s h i t rest (TaskTracker.after_run_task traits s.tracker) k

pub worker_step-InRange :
    (s : System)
    → InRange s
    → (i : ℕ) (pc : Pc) → ((t : ℕ) → token_of pc ≡ some t → t < s.next_token)
    → InRange (worker_step i pc s)
unfolding worker_step
worker_step-InRange s h i idle k =
    take_work-InRange s h i (ThreadGroup.get_work s.group) (get_work-Kept _ s.group h.queued)
worker_step-InRange s h i exited k = h
worker_step-InRange s h i (got t) k = claim-InRange s h i t _ (k t refl)
worker_step-InRange s h i (claimed t) k = start_task-InRange s h i t _ (k t refl)
worker_step-InRange s h i (running t todo) k = run_instr-InRange s h i t todo (k t refl)
worker_step-InRange s h i (finished t) k =
    keep-InRange _ (store-InRange s h t _) i (checking t) t refl (k t refl)
worker_step-InRange s h i (checking t) k =
    elim (Bool-cases (Sequence.has_ready_tasks s.clock (s.sequences t))) [
      | inl e ↦ rw (e, worker_step) (keep-InRange s h i (requeue t) t refl (k t refl))
      | inr e ↦ rw (e, worker_step) (idle-InRange s h i)
    ]
worker_step-InRange s h i (requeue t) k =
    idle-InRange (push_source t s) (push_source-InRange s h t (k t refl)) i
worker_step-InRange s h i (panicked t) k = h

module _ {A : Type 0} (P : A → Type 0) where
  abbrev pub Extracted : Option (A × List A) → Type 0
  Extracted none = Unit
  Extracted (some (x, rest)) = P x × All P rest

  pub extract-Extracted : (n : ℕ) (xs : List A) → All P xs → Extracted (extract n xs)
  unfolding extract
  extract-Extracted n [] h = tt
  extract-Extracted zero (x ∷ xs) h = h
  extract-Extracted (suc n) (x ∷ xs) h = ground (arith, extract-Extracted n xs h.1)
