-- ===== src/Pool/Counting.antt =====
-- `num_tasks_blocking_shutdown` of rust_task/thread_pool/task_tracker.rs as a count of the tasks that
-- were accepted with `BlockShutdown` and have not run to their end.
pub mod Invariant
pub mod Post
pub mod Taken
pub mod Worker
pub mod Events
pub mod Step
use rust_base.Base.{
  ℕ, ◌+◌, ◌≤◌, ◌<◌, ◌≡◌, ◌≢◌, refl, sym, ap, ◌∙◌, Bool, true, false, if◌then◌else◌, some, none,
  Option, List, [], ◌∷◌, ◌++◌, update, sum, sum_next, sum_same, sum_change, sum_at, arith, inl, inr,
  append-nil, subst,
}
use native.Mathlib.Decide.{ℕ_discrete}
use rust_base.Task.{Task, TaskTraits, is_block_shutdown}
use rust_base.Sequence.{Entry, Sequence}
use rust_base.Pool.Callback.{
  Body, user, timed, with_reply, Closure, plain, guarded, Instr, call, report, post_reply, check,
  after, body_steps, steps,
}
use rust_base.Pool.{
  Pc, running, panicked, Phase, not_called, waiting, drained, joining, stopped, System,
}
use rust_base.Pool.Exclusion.{owns, flag_of, owner_of}

abbrev pub blocks : TaskTraits → ℕ
blocks traits = if is_block_shutdown traits.shutdown_behavior then 1 else 0

abbrev pub closure_load : Closure → ℕ
closure_load (plain b) = 0
closure_load (guarded traits b) = blocks traits

abbrev pub tasks_load : List (Task Closure) → ℕ
tasks_load [] = 0
tasks_load (t ∷ ts) = closure_load t.callback + tasks_load ts

abbrev pub entries_load : List (Entry Closure) → ℕ
entries_load [] = 0
entries_load (d ∷ ds) = closure_load d.value.task.callback + entries_load ds

abbrev pub queue_load : Sequence Closure → ℕ
queue_load q = tasks_load q.inner.immediate_queue + entries_load q.inner.delayed_queue

-- What is still to be given back by a callback under way.
abbrev pub load : List Instr → ℕ
load [] = 0
load (after traits ∷ rest) = blocks traits + load rest
load (_ ∷ rest) = load rest

-- A test that may end the callback stands before the end of the same task.
abbrev pub Formed : List Instr → Type 0
Formed [] = Unit
Formed (check traits ∷ rest) = (load rest ≡ blocks traits) × Formed rest
Formed (_ ∷ rest) = Formed rest

-- The body of a callback tests nothing and gives nothing back.
Free : List Instr → Type 0
Free [] = Unit
Free (check traits ∷ rest) = ⊥
Free (after traits ∷ rest) = ⊥
Free (_ ∷ rest) = Free rest

Free-append : (xs ys : List Instr) → Free xs → Free ys → Free (xs ++ ys)
unfolding Free
Free-append [] ys h k = k
Free-append (call f ∷ xs) ys h k = Free-append xs ys h k
Free-append (report ∷ xs) ys h k = Free-append xs ys h k
Free-append (post_reply r b ∷ xs) ys h k = Free-append xs ys h k
Free-append (check traits ∷ xs) ys h k = absurd h
Free-append (after traits ∷ xs) ys h k = absurd h

body_steps-Free : (b : Body) → Free (body_steps b)
unfolding Free
body_steps-Free (user f) = tt
body_steps-Free (timed b) = Free-append (body_steps b) (report ∷ []) (body_steps-Free b) tt
body_steps-Free (with_reply task none reply) = body_steps-Free task
body_steps-Free (with_reply task (some r) reply) =
    Free-append (body_steps task) (post_reply r reply ∷ []) (body_steps-Free task) tt

Free-load : (xs ys : List Instr) → Free xs → load (xs ++ ys) ≡ load ys
unfolding Free
Free-load [] ys h = refl
Free-load (call f ∷ xs) ys h = Free-load xs ys h
Free-load (report ∷ xs) ys h = Free-load xs ys h
Free-load (post_reply r b ∷ xs) ys h = Free-load xs ys h
Free-load (check traits ∷ xs) ys h = absurd h
Free-load (after traits ∷ xs) ys h = absurd h

Free-Formed : (xs ys : List Instr) → Free xs → Formed ys → Formed (xs ++ ys)
unfolding Free
Free-Formed [] ys h k = k
Free-Formed (call f ∷ xs) ys h k = Free-Formed xs ys h k
Free-Formed (report ∷ xs) ys h k = Free-Formed xs ys h k
Free-Formed (post_reply r b ∷ xs) ys h k = Free-Formed xs ys h k
Free-Formed (check traits ∷ xs) ys h k = absurd h
Free-Formed (after traits ∷ xs) ys h k = absurd h

-- A callback that is started carries what its closure counted.
pub steps-load : (c : Closure) → load (steps c) ≡ closure_load c
steps-load (guarded traits b) =
    Free-load (body_steps b) (after traits ∷ []) (body_steps-Free b) ∙ omega arith
steps-load (plain b) =
    sym (ap load (append-nil (body_steps b))) ∙ Free-load (body_steps b) [] (body_steps-Free b)

pub steps-Formed : (c : Closure) → Formed (steps c)
steps-Formed (plain b) =
    subst Formed (append-nil (body_steps b)) (Free-Formed (body_steps b) [] (body_steps-Free b) tt)
steps-Formed (guarded traits b) = (
  Free-load (body_steps b) (after traits ∷ []) (body_steps-Free b) ∙ omega arith,
  Free-Formed (body_steps b) (after traits ∷ []) (body_steps-Free b) tt,
)
