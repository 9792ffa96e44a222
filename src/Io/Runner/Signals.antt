-- ===== src/Io/Runner/Signals.antt =====
-- What the IO thread of rust_io/io_task_runner.rs knows of its work, while it works and while others post.
use rust_base.Base.{
  ℕ, ◌+◌, ◌≤◌, ◌<◌, ◌≡◌, refl, sym, ◌∙◌, ◌⊎◌, false, Option, none, some, List, [], ◌∷◌, ◌==◌, arith,
  Bool-cases, inl, inr, leb, All, subst,
}
use rust_base.Base.Heap
use rust_base.Io.Runner.{
  IoTaskRunner, Thread, draining, draining_delayed, sizing, testing, waiting, dispatching, exited,
  Shutdown, not_called, stored, quit_set, joining, joined, Post, immediate, delayed, DelayedTask,
  push, pushes, signal, shutdown_step, drain, drain_delayed, pop_due, is_exited, delayed_ord,
}
use rust_base.Io.Pump.{schedule_work, set_quit}

abbrev pub quitting : Shutdown → ℕ
quitting quit_set = 1
quitting _ = 0

-- The eventfd is readable, or some thread is about to write to it.
abbrev pub Signalled : IoTaskRunner → Type 0
Signalled r = 0 < r.pump.wakes + r.unsignalled + quitting r.stopping

-- No task is due before that instant.
abbrev pub Covers : Option ℕ → List DelayedTask → Type 0
Covers none ds = ds ≡ []
Covers (some u) ds = All (λ d. u ≤ d.deadline) ds

abbrev pub Expired : Option ℕ → ℕ → Type 0
Expired none now = ⊥
Expired (some u) now = u ≤ now

abbrev pub NoTask : IoTaskRunner → Type 0
NoTask r = (r.tasks ≡ []) ⊎ Signalled r

abbrev pub AwakeAt : Thread → IoTaskRunner → Type 0
AwakeAt draining r = Unit
AwakeAt draining_delayed r = NoTask r
AwakeAt sizing r = NoTask r
AwakeAt (testing d) r = NoTask r × (Covers d r.delayed_tasks ⊎ Signalled r)
AwakeAt (waiting u) r =
    NoTask r
    × (Expired u r.clock ⊎ (Covers u r.delayed_tasks ⊎ Signalled r))
    × ((r.pump.quit ≡ false) ⊎ Signalled r)
AwakeAt (dispatching events calls) r = Unit
AwakeAt exited r = Unit

pub after_signal-AwakeAt : (t : Thread) (r : IoTaskRunner) → Signalled r → AwakeAt t r
after_signal-AwakeAt draining r s = tt
after_signal-AwakeAt draining_delayed r s = inr s
after_signal-AwakeAt sizing r s = inr s
after_signal-AwakeAt (testing d) r s = (inr s, inr s)
after_signal-AwakeAt (waiting u) r s = (inr s, inr (inr s), inr s)
after_signal-AwakeAt (dispatching events calls) r s = tt
after_signal-AwakeAt exited r s = tt

Expired-le : (u : Option ℕ) (a b : ℕ) → a ≤ b → Expired u a → Expired u b
Expired-le none a b h k = k
Expired-le (some u) a b h k = omega arith

-- Time may pass, and the signals may change hands.
module _ (r r' : IoTaskRunner) (same_tasks : r'.tasks ≡ r.tasks)
    (same_delayed : r'.delayed_tasks ≡ r.delayed_tasks) (same_quit : r'.pump.quit ≡ r.pump.quit)
    (later : r.clock ≤ r'.clock) (still : Signalled r → Signalled r') where
  NoTask-kept : NoTask r → NoTask r'
  NoTask-kept (inl e) = inl (same_tasks ∙ e)
  NoTask-kept (inr s) = inr (still s)

  Covers-kept :
      (u : Option ℕ)
      → Covers u r.delayed_tasks ⊎ Signalled r
      → Covers u r'.delayed_tasks ⊎ Signalled r'
  Covers-kept u (inl c) = inl (subst (Covers u) (sym same_delayed) c)
  Covers-kept u (inr s) = inr (still s)

  pub AwakeAt-kept : (t : Thread) → AwakeAt t r → AwakeAt t r'
  AwakeAt-kept draining h = tt
  AwakeAt-kept draining_delayed h = NoTask-kept h
  AwakeAt-kept sizing h = NoTask-kept h
  AwakeAt-kept (testing d) h = (NoTask-kept h.0, Covers-kept d h.1)
  AwakeAt-kept (waiting u) (n, c, q) = (
    NoTask-kept n,
    elim c [ inl e ↦ inl (Expired-le u r.clock r'.clock later e) | inr e ↦ inr (Covers-kept u e) ],
    elim q [ inl e ↦ inl (same_quit ∙ e) | inr s ↦ inr (still s) ],
  )
  AwakeAt-kept (dispatching events calls) h = tt
  AwakeAt-kept exited h = tt

abbrev pub EventKept : (r r' : IoTaskRunner) → Type 0
EventKept r r' = AwakeAt r.thread r → AwakeAt r'.thread r'

pub pushes-AwakeAt : (r : IoTaskRunner) (o : Option (Post × List Post)) → EventKept r (pushes r o)
unfolding pushes push
pushes-AwakeAt r none h = h
pushes-AwakeAt r (some (immediate c, rest)) h = after_signal-AwakeAt r.thread _ (omega arith)
pushes-AwakeAt r (some (delayed c delay, rest)) h = after_signal-AwakeAt r.thread _ (omega arith)

pub signal-AwakeAt : (r : IoTaskRunner) → EventKept r (signal r)
unfolding signal schedule_work
signal-AwakeAt r h = elim (Bool-cases (r.unsignalled == 0)) [
  | inl e ↦ rw e h
  | inr e ↦ rw e (after_signal-AwakeAt r.thread _ (omega arith))
]

pub shutdown_step-AwakeAt :
    (s : Shutdown) (r : IoTaskRunner) → r.stopping ≡ s → EventKept r (shutdown_step s r)
unfolding shutdown_step set_quit schedule_work
shutdown_step-AwakeAt not_called r e h =
    AwakeAt-kept r _ refl refl refl (omega arith) (λ s. ground arith) r.thread h
shutdown_step-AwakeAt stored r e h = after_signal-AwakeAt r.thread _ (omega arith)
shutdown_step-AwakeAt quit_set r e h = after_signal-AwakeAt r.thread _ (omega arith)
shutdown_step-AwakeAt joining r e h = elim (Bool-cases (is_exited r.thread)) [
  | inl e' ↦ rw e' (AwakeAt-kept r _ refl refl refl (omega arith) (λ s. ground arith) r.thread h)
  | inr e' ↦ rw e' h
]
shutdown_step-AwakeAt joined r e h = h

pub drain-AwakeAt :
    (r : IoTaskRunner) (tasks : List ℕ)
    → r.thread ≡ draining
    → r.tasks ≡ tasks
    → EventKept r (drain tasks r)
unfolding drain
drain-AwakeAt r [] t e h = inl e
drain-AwakeAt r (c ∷ tasks) t e h = subst (λ th. AwakeAt th (drain (c ∷ tasks) r)) (sym t) tt

pop_due-AwakeAt :
    (r : IoTaskRunner) (o : Option (DelayedTask × List DelayedTask))
    → r.thread ≡ draining_delayed
    → NoTask r
    → AwakeAt (pop_due r o).thread (pop_due r o)
unfolding pop_due
pop_due-AwakeAt r none t n = n
pop_due-AwakeAt r (some (d, rest)) t n =
    subst (λ th. AwakeAt th (pop_due r (some (d, rest)))) (sym t) n

pub drain_delayed-AwakeAt :
    (r : IoTaskRunner) (o : Option DelayedTask)
    → r.thread ≡ draining_delayed
    → NoTask r
    → AwakeAt (drain_delayed r o).thread (drain_delayed r o)
unfolding drain_delayed
drain_delayed-AwakeAt r none t n = n
drain_delayed-AwakeAt r (some d) t n = elim (Bool-cases (leb d.deadline r.clock)) [
  | inl e ↦ rw e (pop_due-AwakeAt r (Heap.pop r.delayed_tasks) t n)
  | inr e ↦ rw e n
]
