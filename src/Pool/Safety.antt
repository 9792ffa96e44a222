-- ===== src/Pool/Safety.antt =====
-- A sequence as a unit of mutual exclusion (rust_task/thread_pool/sequence.rs, thread_group.rs).
use rust_base.Base.{ℕ, ◌≡◌, ap, ◌↔◌, true, Bool, List, some}
use rust_base.Pool.Callback.{Instr}
use rust_base.Pool.{running, new_pool}
use rust_base.Pool.Schedule.{Event, run}
use rust_base.Pool.Exclusion.{owns, owner_of}
use rust_base.Pool.Exclusion.Reach.{run-IsExclusive, new_pool-IsExclusive}

-- Whatever the schedule, two workers that run callbacks of one sequence are the same worker: the
-- tasks of a sequence never run at the same time.
pub run-exclusive :
    (es : List Event) (n : ℕ) (monitored : Bool)
    → (i j t : ℕ) (todo todo' : List Instr)
    → (run es (new_pool n monitored)).workers i ≡ running t todo
    → (run es (new_pool n monitored)).workers j ≡ running t todo'
    → i ≡ j
run-exclusive es n monitored i j t todo todo' e f =
    let x = run-IsExclusive es (new_pool n monitored) (new_pool-IsExclusive n monitored) in
    x.exclusion.unique i j t (ap owns e) (ap owns f)

-- Whatever the schedule, a sequence has its flag `has_worker` set if and only if a worker is between
-- `will_run_task` and the store in `did_process_task` for it.
pub run-flag :
    (es : List Event) (n : ℕ) (monitored : Bool) (t : ℕ)
    → ((run es (new_pool n monitored)).sequences t).has_worker ≡ true
      ↔ (i : ℕ) × (owner_of (run es (new_pool n monitored)) i ≡ some t)
run-flag es n monitored t =
    let x = run-IsExclusive es (new_pool n monitored) (new_pool-IsExclusive n monitored) in
    (x.exclusion.flagged t, λ (i, e). x.exclusion.owned i t e)
