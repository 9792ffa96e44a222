-- ===== src/Io/Runner/Awake.antt =====
-- The IO thread of rust_io/io_task_runner.rs does not sleep over work.
use rust_base.Base.{
  ℕ, ◌≤◌, ◌≡◌, refl, sym, ◌⊎◌, Bool, true, false, Option, none, some, List, [], ◌∷◌, if◌then◌else◌,
  arith, Option-cases, inl, inr, All-map, subst, at_most,
}
use rust_base.Base.Heap
use rust_base.Base.Heap.Laws.{pop_empty, pop-greatest, All-pop, peek-eq-some, peek-eq-none}
use rust_base.Io.Runner.{
  IoTaskRunner, Thread, draining, draining_delayed, sizing, testing, waiting, dispatching, exited,
  Post, DelayedTask, Event, advance, posts, pushing, signals, stops, io, Wait, ready, interrupted,
  failed, new_runner, post, waited, dispatch_step, thread_step, step, run, deadline_of, until, cmp,
  delayed_ord,
}
use rust_base.Io.Pump.{Flags, Callback, timeout_ms}
use rust_base.Io.Pump.Wait.{timeout_ms_bounds}
use rust_base.Pool.Schedule.{extract}
use rust_base.Io.Runner.Signals.{
  Signalled, Covers, Expired, AwakeAt, AwakeAt-kept, EventKept, pushes-AwakeAt, signal-AwakeAt,
  shutdown_step-AwakeAt, drain-AwakeAt, drain_delayed-AwakeAt,
}

at_most-le : (d m : DelayedTask) → at_most (cmp d m) ≡ true → m.deadline ≤ d.deadline
at_most-le d m k = ground arith

peek-Covers : (h : List DelayedTask) → Covers (deadline_of (Heap.peek h)) h
peek-Covers h = elim (Option-cases (Heap.pop h)) [
  | inl e ↦ rw (peek-eq-none h e) (pop_empty h e)
  | inr ((m, rest), e) ↦ rw (peek-eq-some h e) (
      All-pop (λ d. m.deadline ≤ d.deadline) h e (omega arith)
        (All-map _ _ (λ d k. at_most-le d m k) rest (pop-greatest h e)))
]

-- The wait ends when the first deadline does, or earlier.
until-Covers :
    (now : ℕ) (d : Option ℕ) (ds : List DelayedTask)
    → Covers d ds
    → Expired (until now (timeout_ms now d)) now ⊎ Covers (until now (timeout_ms now d)) ds
until-Covers now none ds c = inr (unfold timeout_ms in c)
until-Covers now (some x) ds c = elim (Option-cases (timeout_ms now (some x))) [
  | inl e ↦ absurd (unfold timeout_ms in cc)
  | inr (t, e) ↦ rw e (elim (timeout_ms_bounds now x t e).1 [
    | inl z ↦ inl (omega arith)
    | inr l ↦ inr (All-map _ _ (λ (y : DelayedTask) (k : x ≤ y.deadline). omega arith) ds c)
  ])
]

testing-AwakeAt :
    (w : Wait) (alive : ℕ → Bool) (d : Option ℕ) (r : IoTaskRunner)
    → AwakeAt (testing d) r
    → AwakeAt (thread_step w alive (testing d) r).thread (thread_step w alive (testing d) r)
unfolding thread_step
testing-AwakeAt w alive d r (n, c) = go r.pump.quit refl
  where
    waits :
        Covers d r.delayed_tasks ⊎ Signalled r
        → Expired (until r.clock (timeout_ms r.clock d)) r.clock
          ⊎ (Covers (until r.clock (timeout_ms r.clock d)) r.delayed_tasks ⊎ Signalled r)
    waits (inr s) = inr (inr s)
    waits (inl k) = elim (until-Covers r.clock d r.delayed_tasks k) [
      | inl e ↦ inl e
      | inr h ↦ inr (inl h)
    ]

    go :
        (q : Bool)
        → r.pump.quit ≡ q
        → let t = if q then exited else waiting (until r.clock (timeout_ms r.clock d)) in
          AwakeAt t (record r { thread = t })
    go true e = tt
    go false e = (n, waits c, inl e)

dispatch_step-AwakeAt :
    (alive : ℕ → Bool) (events : List (ℕ × Flags)) (calls : List Callback) (r : IoTaskRunner)
    → AwakeAt (dispatch_step alive events calls r).thread (dispatch_step alive events calls r)
unfolding dispatch_step
dispatch_step-AwakeAt alive events (c ∷ calls) r = tt
dispatch_step-AwakeAt alive [] [] r = tt
dispatch_step-AwakeAt alive ((fd, f) ∷ events) [] r = tt

waited-AwakeAt : (w : Wait) (r : IoTaskRunner) → AwakeAt (waited w r).thread (waited w r)
unfolding waited
waited-AwakeAt (ready events) r = tt
waited-AwakeAt interrupted r = tt
waited-AwakeAt failed r = tt

thread_step-AwakeAt :
    (w : Wait) (alive : ℕ → Bool) (t : Thread) (r : IoTaskRunner)
    → r.thread ≡ t
    → AwakeAt t r
    → AwakeAt (thread_step w alive t r).thread (thread_step w alive t r)
unfolding thread_step
thread_step-AwakeAt w alive draining r e h =
    drain-AwakeAt r r.tasks e refl (subst (λ t. AwakeAt t r) (sym e) h)
thread_step-AwakeAt w alive draining_delayed r e h =
    drain_delayed-AwakeAt r (Heap.peek r.delayed_tasks) e h
thread_step-AwakeAt w alive sizing r e h = (h, inl (peek-Covers r.delayed_tasks))
thread_step-AwakeAt w alive (testing d) r e h = testing-AwakeAt w alive d r h
thread_step-AwakeAt w alive (waiting u) r e h = waited-AwakeAt w r
thread_step-AwakeAt w alive (dispatching events calls) r e h =
    dispatch_step-AwakeAt alive events calls r
thread_step-AwakeAt w alive exited r e h = subst (λ t. AwakeAt t r) (sym e) h

post-AwakeAt : (p : Post) (r : IoTaskRunner) → EventKept r (post p r).1
unfolding post
post-AwakeAt p r h = go r.shutdown h
  where
    go :
        (q : Bool)
        → let o : Bool × IoTaskRunner =
            if q then (false, r) else (true, record r { posts = p ∷ r.posts }) in
          EventKept r o.1
    go true k = k
    go false k = AwakeAt-kept r _ refl refl refl (omega arith) (λ s. s) r.thread k

step-AwakeAt : (e : Event) (r : IoTaskRunner) → EventKept r (step e r)
unfolding step
step-AwakeAt (advance d) r h = AwakeAt-kept r _ refl refl refl (omega arith) (λ s. s) r.thread h
step-AwakeAt (posts p) r h = post-AwakeAt p r h
step-AwakeAt (pushing n) r h = pushes-AwakeAt r (extract n r.posts) h
step-AwakeAt signals r h = signal-AwakeAt r h
step-AwakeAt stops r h = shutdown_step-AwakeAt r.stopping r refl h
step-AwakeAt (io w alive) r h = thread_step-AwakeAt w alive r.thread r refl h

run-AwakeAt : (es : List Event) (r : IoTaskRunner) → EventKept r (run es r)
unfolding run
run-AwakeAt [] r h = h
run-AwakeAt (e ∷ es) r h = run-AwakeAt es (step e r) (step-AwakeAt e r h)

-- Whatever the schedule, while the IO thread is blocked in epoll_wait until some instant: if there is a
-- task, or it was asked to quit, the eventfd is readable, or a thread is about to write to it; and so
-- it is unless that instant has come or is no later than every deadline of a delayed task. No post is
-- slept over.
pub run-awake :
    (es : List Event) (wake_fd : ℕ) (u : Option ℕ)
    → let r = run es (new_runner wake_fd) in
      r.thread ≡ waiting u
      → ((r.tasks ≡ []) ⊎ Signalled r)
        × (Expired u r.clock ⊎ (Covers u r.delayed_tasks ⊎ Signalled r))
        × ((r.pump.quit ≡ false) ⊎ Signalled r)
run-awake es wake_fd u e =
    subst (λ t. AwakeAt t (run es (new_runner wake_fd))) e
      (run-AwakeAt es (new_runner wake_fd) (unfold new_runner in tt))
