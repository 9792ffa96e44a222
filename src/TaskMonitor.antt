-- ===== src/TaskMonitor.antt =====
-- rust_task/task_monitor.rs: the slots of the workers and the scan of the watchdog. An `Instant` is the
-- number of nanoseconds since the monitor's `reference`; a slot holds 64 bits, and 0 means idle.
pub mod Watchdog
pub mod Tests
use rust_base.Base.{
  ℕ, zero, suc, ◌+◌, ◌-◌, Bool, true, false, Option, none, some, List, [], ◌∷◌, ◌++◌, length, leb,
  ◌==◌, if◌then◌else◌,
}
use Prim.Native.Nat.{◌%◌, ◌^◌}

pub record HangInfo : Type 0 where
  pub worker_id : ℕ
  pub stuck_duration : ℕ

pub record TaskMetrics : Type 0 where
  pub queue_time : ℕ
  pub execution_time : ℕ

pub record TaskMonitor : Type 0 where
  pub hang_threshold : ℕ
  pub slots : List ℕ

-- `as u64`
unfoldable pub to_u64 : ℕ → ℕ
to_u64 n = n % 2 ^ 64

unfoldable pub at_most_u64 : ℕ → ℕ
at_most_u64 n = if leb n (2 ^ 64 - 1) then n else 2 ^ 64 - 1

-- `.max(1)`
unfoldable pub at_least_one : ℕ → ℕ
at_least_one n = if n == 0 then 1 else n

abbrev pub get_elem? : List ℕ → ℕ → Option ℕ
get_elem? [] n = none
get_elem? (x ∷ xs) zero = some x
get_elem? (x ∷ xs) (suc n) = get_elem? xs n

-- A store into one of the shared slots.
abbrev pub store : ℕ → ℕ → List ℕ → List ℕ
store idx v [] = []
store zero v (x ∷ xs) = v ∷ xs
store (suc idx) v (x ∷ xs) = x ∷ store idx v xs

-- The index of the new slot, and the monitor with it.
unfoldable pub register_worker : TaskMonitor → ℕ × TaskMonitor
register_worker m = (length m.slots, record m { slots = m.slots ++ 0 ∷ [] })

unfoldable pub task_started : ℕ → ℕ → TaskMonitor → TaskMonitor
unfolding at_least_one to_u64
task_started now idx m = record m { slots = store idx (at_least_one (to_u64 now)) m.slots }

unfoldable pub task_finished : ℕ → TaskMonitor → TaskMonitor
task_finished idx m = record m { slots = store idx 0 m.slots }

-- The measurements of a task that is posted, started and done at three instants.
unfoldable pub measured : ℕ → ℕ → ℕ → TaskMetrics
measured posted_at exec_start done = record {
  queue_time = exec_start - posted_at;
  execution_time = done - exec_start;
}

-- What the watchdog makes of one slot: nothing, or the time that the worker has been stuck.
unfoldable pub stuck : ℕ → ℕ → ℕ → Option ℕ
stuck now threshold started =
    let elapsed = now - started in
    if started == 0 then none else (if leb threshold elapsed then some elapsed else none)

unfoldable pub hung : ℕ → ℕ → ℕ → List ℕ → List HangInfo
unfolding stuck
hung now threshold idx [] = []
hung now threshold idx (slot ∷ slots) =
    let rest = hung now threshold (idx + 1) slots in
    elim (stuck now threshold slot) [
      | none ↦ rest
      | some elapsed ↦ record { worker_id = idx; stuck_duration = elapsed } ∷ rest
    ]

-- One round of `watchdog_loop`.
unfoldable pub scan : ℕ → TaskMonitor → List HangInfo
unfolding hung to_u64 at_most_u64
scan now m = hung (to_u64 now) (at_most_u64 m.hang_threshold) 0 m.slots
