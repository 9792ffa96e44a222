-- ===== src/Pool/Attended.antt =====
-- Which sequences are looked after: the state in which no posted task can be forgotten.
pub mod Post
pub mod Worker
pub mod Hold
pub mod Instr
pub mod Step
pub mod Reach
use rust_base.Base.{
  ℕ, ◌≤◌, ◌<◌, ◌≡◌, ◌≢◌, refl, sym, ap, ◌∙◌, subst, arith, ◌⊎◌, inl, inr, Bool, true, false, ◌&&◌,
  some, none, List, [], ◌∷◌, All, All-map, any, ◌==◌, Reverse,
}
use rust_base.PriorityQueue.{QueueEntry}
use rust_base.DelayedTaskManager.{DelayedEntry}
use rust_base.Sequence.{Entry, Sequence, SequenceInner}
use rust_base.Pool.Callback.{Closure}
use rust_base.Pool.{Pc, System}
use rust_base.Pool.InRange.{token_of}

abbrev pub is_source : ℕ → QueueEntry → Bool
is_source t e = e.task_source == t

abbrev pub is_due_at : ℕ → ℕ → Reverse DelayedEntry → Bool
is_due_at t r e = e.value.sequence == t && e.value.ready_time == r

abbrev pub is_announced : ℕ → ℕ → ℕ × ℕ → Bool
is_announced t r p = p.1 == t && p.0 == r

-- The sequence waits for a worker, is about to, or is in the hands of one.
pub data Covered (s : System) (t : ℕ) : Type 0 where
  queued : any (is_source t) s.group.priority_queue.heap ≡ true → Covered s t
  flying : any (λ u. u == t) s.in_flight ≡ true → Covered s t
  held : (i : ℕ) → token_of (s.workers i) ≡ some t → Covered s t

-- The timer thread knows, or is about to be told, that the sequence has a task at that time.
pub data Pending (s : System) (t r : ℕ) : Type 0 where
  listed : any (is_due_at t r) s.delayed.heap ≡ true → Pending s t r
  announced : any (is_announced t r) s.in_flight_delayed ≡ true → Pending s t r

-- A delayed task whose time is pending or has come.
abbrev pub Awaited : System → ℕ → Entry Closure → Type 0
Awaited s t d = Pending s t d.value.ready_time ⊎ (d.value.ready_time ≤ s.clock)

pub data Attended (s : System) (t : ℕ) : Type 0 where
  resting :
      (s.sequences t).inner.immediate_queue ≡ []
      → All (λ d. Pending s t d.value.ready_time) (s.sequences t).inner.delayed_queue
      → Attended s t
  covered : Covered s t → All (Awaited s t) (s.sequences t).inner.delayed_queue → Attended s t

-- A step that leaves the tasks of `t` where they are, and keeps it covered and its entries pending.
pub Attended-mono :
    (s s' : System) (t : ℕ)
    → (s'.sequences t).inner ≡ (s.sequences t).inner
    → (Covered s t → Covered s' t)
    → ((r : ℕ) → Pending s t r → Pending s' t r)
    → s.clock ≤ s'.clock
    → Attended s t
    → Attended s' t
Attended-mono s s' t e c p k (resting q d) =
    resting (ap (λ (i : SequenceInner Closure). i.immediate_queue) e ∙ q) (
      subst (All (λ d. Pending s' t d.value.ready_time))
        (sym (ap (λ (i : SequenceInner Closure). i.delayed_queue) e))
        (All-map _ _ (λ x h. p x.value.ready_time h) (s.sequences t).inner.delayed_queue d))
Attended-mono s s' t e c p k (covered q d) = covered (c q) (
    subst (All (Awaited s' t)) (sym (ap (λ (i : SequenceInner Closure). i.delayed_queue) e))
      (All-map _ _ later (s.sequences t).inner.delayed_queue d))
  where
    later : (x : Entry Closure) → Awaited s t x → Awaited s' t x
    later x (inl h) = inl (p x.value.ready_time h)
    later x (inr h) = inr (omega arith)

-- The times of the delayed tasks, whichever way the sequence is attended.
pub Attended-Awaited :
    (s : System) (t : ℕ) → Attended s t → All (Awaited s t) (s.sequences t).inner.delayed_queue
Attended-Awaited s t (resting q d) =
    All-map _ _ (λ x h. inl h) (s.sequences t).inner.delayed_queue d
Attended-Awaited s t (covered q d) = d

-- A sequence that is covered after the step, whatever became of its tasks, so long as no new
-- deadline came in.
pub Attended-Covered :
    (s s' : System) (t : ℕ)
    → Covered s' t
    → ((P : Entry Closure → Type 0)
        → All P (s.sequences t).inner.delayed_queue
        → All P (s'.sequences t).inner.delayed_queue)
    → ((x : Entry Closure) → Awaited s t x → Awaited s' t x)
    → Attended s t
    → Attended s' t
Attended-Covered s s' t c k w a =
    covered c (
      k (Awaited s' t) (All-map _ _ w (s.sequences t).inner.delayed_queue (Attended-Awaited s t a)))

-- A sequence whose new contents are known.
pub Covered-at :
    (s : System) (t : ℕ) (q : Sequence Closure)
    → s.sequences t ≡ q
    → Covered s t
    → All (Awaited s t) q.inner.delayed_queue
    → Attended s t
Covered-at s t q e c d =
    covered c (subst (λ (r : Sequence Closure). All (Awaited s t) r.inner.delayed_queue) (sym e) d)

pub resting_at :
    (s : System) (t : ℕ) (q : Sequence Closure)
    → s.sequences t ≡ q
    → q.inner.immediate_queue ≡ []
    → All (λ d. Pending s t d.value.ready_time) q.inner.delayed_queue
    → Attended s t
resting_at s t q e i d = resting (ap (λ (r : Sequence Closure). r.inner.immediate_queue) e ∙ i) (
    subst
      (λ (r : Sequence Closure). All (λ x. Pending s t x.value.ready_time) r.inner.delayed_queue)
      (sym e) d)
