-- ===== src/Pool/Progress.antt =====
-- No task is stranded in a pool: `post_task`, `worker_loop`, `did_process_task` and the timer thread
-- hand each sequence on to one another.
use rust_base.Base.{
  ℕ, ◌+◌, ◌≡◌, ◌≢◌, ◌∙◌, ap, Bool, false, none, some, List, [], ◌∷◌, All, arith, refl, inl, inr,
  Bool-cases, sum_same, sum_zero,
}
use rust_base.Sequence.{Entry}
use rust_base.Pool.Callback.{Closure}
use rust_base.Pool.{
  Pc, idle, exited, got, claimed, running, finished, checking, requeue, panicked, System, new_pool,
}
use rust_base.Pool.Exclusion.{owns, flag_of, IsExclusive}
use rust_base.Pool.Counting.{queue_load, tasks_load, entries_load}
use rust_base.Pool.Counting.Invariant.{Counted}
use rust_base.Pool.Waits.{reached}
use rust_base.Pool.Schedule.{Event, run}
use rust_base.Pool.InRange.{token_of}
use rust_base.Pool.Exclusion.Reach.{new_pool-IsExclusive, run-IsExclusive}
use rust_base.Pool.Attended.{
  Covered, queued, flying, held, Pending, listed, announced, Attended, resting, covered,
}
use rust_base.Pool.Attended.Reach.{events-Attended, new_pool-Attended}

-- Whatever the schedule, each sequence is attended. Either it has no immediate task, and the timer
-- thread knows (or is about to be told) each of its deadlines; or it is in the queue of the workers,
-- about to be put there, or in the hands of a worker, and each of its deadlines is known or past.
pub run-Attended :
    (es : List Event) (n : ℕ) (monitored : Bool) (t : ℕ)
    → Attended (run es (new_pool n monitored)) t
run-Attended es n monitored =
    events-Attended es (new_pool n monitored) (new_pool-IsExclusive n monitored)
      (new_pool-Attended n monitored)

-- Nothing is under way: the queues are empty, no call is about to be made, and no worker has a
-- sequence in hand.
pub record Quiet (s : System) : Type 0 where
  pub no_source : s.group.priority_queue.heap ≡ []
  pub no_flight : s.in_flight ≡ []
  pub no_entry : s.delayed.heap ≡ []
  pub no_delayed_flight : s.in_flight_delayed ≡ []
  pub no_holder : (i : ℕ) → token_of (s.workers i) ≡ none

module _ (s : System) (q : Quiet s) (t : ℕ) where
  not-Covered : ¬ Covered s t
  not-Covered (queued h) = let e = q.no_source in ground arith
  not-Covered (flying h) = let e = q.no_flight in ground arith
  not-Covered (held i h) = let e = q.no_holder i in cc

  not-Pending : (r : ℕ) → ¬ Pending s t r
  not-Pending r (listed h) = let e = q.no_entry in ground arith
  not-Pending r (announced h) = let e = q.no_delayed_flight in ground arith

  none-Pending :
      (ds : List (Entry Closure)) → All (λ d. Pending s t d.value.ready_time) ds → ds ≡ []
  none-Pending [] h = refl
  none-Pending (d ∷ ds) h = absurd (not-Pending d.value.ready_time h.0)

  Quiet-drained :
      Attended s t
      → ((s.sequences t).inner.immediate_queue ≡ []) × ((s.sequences t).inner.delayed_queue ≡ [])
  Quiet-drained (resting e d) = (e, none-Pending (s.sequences t).inner.delayed_queue d)
  Quiet-drained (covered c d) = absurd (not-Covered c)

module _ (s : System) (q : Quiet s) (x : IsExclusive s) (c : Counted s)
    (a : (t : ℕ) → Attended s t) where
  Quiet-unflagged : (t : ℕ) → flag_of s t ≡ false
  Quiet-unflagged t = elim (Bool-cases (flag_of s t)) [
    | inl e ↦
        let (i, o) = x.exclusion.flagged t e in
        absurd (owns-holder (s.workers i) t o (q.no_holder i))
    | inr e ↦ e
  ]
    where
      owns-holder : (p : Pc) (u : ℕ) → owns p ≡ some u → token_of p ≢ none
      owns-holder idle u e = cc
      owns-holder exited u e = cc
      owns-holder (got v) u e = cc
      owns-holder (claimed v) u e = cc
      owns-holder (running v todo) u e = cc
      owns-holder (finished v) u e = cc
      owns-holder (checking v) u e = cc
      owns-holder (requeue v) u e = cc
      owns-holder (panicked v) u e = cc

  Quiet-load : (t : ℕ) → queue_load (s.sequences t) + c.under_way t ≡ 0
  Quiet-load t =
      let (i, d) = Quiet-drained s q t (a t) in
      omega (arith, ap tasks_load i, ap entries_load d, c.free t (Quiet-unflagged t))

  Quiet-given_back : s.tracker.num_tasks_blocking_shutdown ≡ 0
  Quiet-given_back =
      c.total
      ∙ sum_same s.next_token (λ t. queue_load (s.sequences t) + c.under_way t) (λ t. 0)
          (λ t l. Quiet-load t)
      ∙ sum_zero s.next_token

-- Whatever the schedule, when a pool has come to rest, with empty queues and no worker that has a
-- sequence in hand, no sequence holds a task, immediate or delayed; and the count of the tracker is 0,
-- so that `TaskTracker::shutdown` would not wait.
pub run-drained :
    (es : List Event) (n : ℕ) (monitored : Bool)
    → Quiet (run es (new_pool n monitored))
    → (t : ℕ)
    → (((run es (new_pool n monitored)).sequences t).inner.immediate_queue ≡ [])
      × (((run es (new_pool n monitored)).sequences t).inner.delayed_queue ≡ [])
      × ((run es (new_pool n monitored)).tracker.num_tasks_blocking_shutdown ≡ 0)
run-drained es n monitored q t =
    let s = run es (new_pool n monitored) in
    let (i, d) = Quiet-drained s q t (run-Attended es n monitored t) in
    (
      i,
      d,
      Quiet-given_back s q
          (run-IsExclusive es (new_pool n monitored) (new_pool-IsExclusive n monitored))
          (reached es n monitored) (run-Attended es n monitored),
    )
