-- ===== src/Pool/Waits.antt =====
-- What `ThreadPool::shutdown` (rust_task/thread_pool/thread_pool.rs, task_tracker.rs) waits for.
use rust_base.Base.{ℕ, ◌+◌, ◌<◌, ◌≡◌, ◌≢◌, ap, ◌∙◌, Bool, true, List, arith, sum_at}
use rust_base.Pool.Callback.{Instr}
use rust_base.Pool.Schedule.{Event, run}
use rust_base.Pool.{running, panicked, new_pool}
use rust_base.Pool.Exclusion.{owns, IsExclusive}
use rust_base.Pool.Counting.{queue_load, load}
use rust_base.Pool.Counting.Invariant.{Counted, todo_of, past_wait}
use rust_base.Pool.Exclusion.Reach.{new_pool-IsExclusive, run-IsExclusive}
use rust_base.Pool.InRange.{token_of}
use rust_base.Pool.Counting.Events.{events-Counted, new_pool-Counted}

module _ (es : List Event) (n : ℕ) (monitored : Bool) where
  pub reached : Counted (run es (new_pool n monitored))
  reached =
      events-Counted es (new_pool n monitored) (new_pool-IsExclusive n monitored)
        (new_pool-Counted n monitored)

  -- Whatever the schedule, when `TaskTracker::shutdown` has returned, no sequence holds a task that was
  -- accepted by `ThreadPool` with `BlockShutdown`, immediate or delayed.
  pub run-none_queued :
      (t : ℕ)
      → t < (run es (new_pool n monitored)).next_token
      → past_wait (run es (new_pool n monitored)).phase ≡ true
      → queue_load ((run es (new_pool n monitored)).sequences t) ≡ 0
  run-none_queued t l p =
      let z = reached.waited p in
      let m =
        sum_at (run es (new_pool n monitored)).next_token
          (λ v. queue_load ((run es (new_pool n monitored)).sequences v) + reached.under_way v) t
          l in
      omega (arith, reached.total)

  -- Whatever the schedule, when `TaskTracker::shutdown` has returned, no worker is in a callback that
  -- was accepted with `BlockShutdown`.
  pub run-none_running :
      (i t : ℕ) (todo : List Instr)
      → (run es (new_pool n monitored)).workers i ≡ running t todo
      → past_wait (run es (new_pool n monitored)).phase ≡ true
      → load todo ≡ 0
  run-none_running i t todo d p =
      let x = events_IsExclusive in
      let z = reached.waited p in
      let h = reached.hand i t (ap owns d) ∙ ap (λ c. load (todo_of c)) d in
      let m =
        sum_at (run es (new_pool n monitored)).next_token
          (λ v. queue_load ((run es (new_pool n monitored)).sequences v) + reached.under_way v) t
          (x.range.held i t (ap token_of d)) in
      omega (arith, reached.total)
    where
      events_IsExclusive : IsExclusive (run es (new_pool n monitored))
      events_IsExclusive =
          run-IsExclusive es (new_pool n monitored) (new_pool-IsExclusive n monitored)

  -- Whatever the schedule, the count of the tracker is never 0 when a task that was accepted with
  -- `BlockShutdown` ends, so that no worker panics in `after_run_task`.
  pub run-no_underflow : (i t : ℕ) → (run es (new_pool n monitored)).workers i ≢ panicked t
  run-no_underflow i t = reached.calm i t
