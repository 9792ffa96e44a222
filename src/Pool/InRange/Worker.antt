-- ===== src/Pool/InRange/Worker.antt =====
-- A worker keeps the tokens in use among those that were given out.
use rust_base.Base.{ℕ, ◌<◌, ◌≡◌, refl, sym, ◌∙◌, subst, Bool, Option, none, some, List, arith}
use mathlib.Core.Option.{some-injective}
use rust_base.ThreadGroup.{ThreadGroup, Work}
use rust_base.ThreadGroup.Popped.{Kept}
use rust_base.TaskTracker.{TaskTracker}
use rust_base.Pool.Callback.{Closure, Instr}
use rust_base.Pool.Worker.{take_work, claim, start_task, finish_guarded}
use rust_base.Sequence.{Sequence, RunStatus}
use rust_base.Task.{Task}
use rust_base.Pool.{set_worker}
use rust_base.Pool.{Pc, idle, exited, got, claimed, running, finished, panicked, System}
use rust_base.Pool.InRange.{token_of, InRange, moved-InRange, store-InRange}

-- A worker that drops its sequence, or keeps it.
module _ (s : System) (h : InRange s) (i : ℕ) where
  pub idle-InRange : InRange (set_worker i idle s)
  idle-InRange = moved-InRange s h i idle (λ t e. cc)

  pub keep-InRange :
      (pc : Pc) (t : ℕ) → token_of pc ≡ some t → t < s.next_token → InRange (set_worker i pc s)
  keep-InRange pc t e k =
      moved-InRange s h i pc
        (λ u f. subst (λ x. x < s.next_token) (some-injective _ _ (sym e ∙ f)) k)

  pub take_work-InRange :
      (r : Work × ThreadGroup)
      → Kept (λ e. e.task_source < s.next_token) r
      → InRange (take_work i s r)
  unfolding take_work
  take_work-InRange (Work.leave, g) k = moved-InRange s h i exited (λ t e. cc)
  take_work-InRange (Work.wait, g) k = h
  take_work-InRange (Work.run t, g) ((e, f, lt), rest) =
      moved-InRange (record s { group = g })
        (record {
          queued = rest;
          flying = h.flying;
          waiting = h.waiting;
          flying_delayed = h.flying_delayed;
          held = h.held;
        })
        i (got t) (λ u x. ground arith)

  pub claim-InRange :
      (t : ℕ) (r : RunStatus × Sequence Closure) → t < s.next_token → InRange (claim i t s r)
  unfolding claim
  claim-InRange t (RunStatus.disallowed, q) k =
      moved-InRange _ (store-InRange s h t q) i idle (λ u e. cc)
  claim-InRange t (_, q) k =
      moved-InRange _ (store-InRange s h t q) i (claimed t) (λ u e. ground arith)

  pub start_task-InRange :
      (t : ℕ) (r : Option (Task Closure) × Sequence Closure)
      → t < s.next_token
      → InRange (start_task i t s r)
  unfolding start_task
  start_task-InRange t (none, q) k =
      moved-InRange _ (store-InRange s h t q) i (finished t) (λ u e. ground arith)
  start_task-InRange t (some task, q) k =
      moved-InRange _ (store-InRange s h t q) i (running t _) (λ u e. ground arith)

  pub finish_guarded-InRange :
      (t : ℕ) (rest : List Instr) (r : Option (TaskTracker × Bool))
      → t < s.next_token
      → InRange (finish_guarded i t rest s r)
  unfolding finish_guarded
  finish_guarded-InRange t rest none k = keep-InRange (panicked t) t refl k
  finish_guarded-InRange t rest (some (tracker, b)) k =
      moved-InRange (record s { tracker = tracker })
        (record {
          queued = h.queued;
          flying = h.flying;
          waiting = h.waiting;
          flying_delayed = h.flying_delayed;
          held = h.held;
        })
        i (running t rest) (λ u e. ground arith)
