-- ===== src/DelayedTaskManager.antt =====
-- rust_task/thread_pool/delayed_task_manager.rs: the sequences that wait for a deadline. A sequence
-- is named by its token. The timer thread is `timer_round`, one turn of its loop under the mutex.
pub mod Deadline
pub mod Fired
use rust_base.Base.{
  ℕ, ◌+◌, ◌-◌, Bool, true, false, Option, none, some, List, [], ◌∷◌, if◌then◌else◌, leb, Ord,
  Ordering, Reverse, reverse_ord, lex_cmp, lex_total, lex_trans,
}
use rust_base.Base.Heap

pub record DelayedEntry : Type 0 where
  pub ready_time : ℕ
  pub id : ℕ
  pub sequence : ℕ

abbrev pub delayed_entry_cmp : DelayedEntry → DelayedEntry → Ordering
delayed_entry_cmp a b = lex_cmp a.ready_time a.id b.ready_time b.id

instance abbrev pub delayed_entry_ord : Ord DelayedEntry
delayed_entry_ord = record {
  cmp = delayed_entry_cmp;
  total = λ a b. lex_total a.ready_time a.id b.ready_time b.id;
  trans = λ a b c. lex_trans a.ready_time a.id b.ready_time b.id c.ready_time c.id;
}

pub record DelayedTaskManager : Type 0 where
  pub heap : List (Reverse DelayedEntry)
  pub shutdown : Bool

unfoldable pub new : DelayedTaskManager
new = record { heap = []; shutdown = false }

-- The identity comes from a counter of the process, `NEXT_ENTRY_ID`.
unfoldable pub add_sequence : ℕ → ℕ → ℕ → DelayedTaskManager → DelayedTaskManager
unfolding Heap.push
add_sequence id ready_time sequence m = record m { heap = Heap.push entry m.heap }
  where
    entry : Reverse DelayedEntry
    entry = record { value = record { ready_time = ready_time; id = id; sequence = sequence } }

unfoldable pub signal_shutdown : DelayedTaskManager → DelayedTaskManager
signal_shutdown m = record m { shutdown = true }

-- What the timer thread does next: leave its loop, wait for a notification, wait for a notification
-- or until some time has passed, or hand a sequence to the thread group.
pub data TimerAction : Type 0 where
  quit wait : TimerAction
  wait_timeout : ℕ → TimerAction
  fire : DelayedEntry → TimerAction

unfoldable pub timer_fire : DelayedTaskManager → TimerAction × DelayedTaskManager
unfolding Heap.pop
timer_fire m = elim (Heap.pop m.heap) [
  | none ↦ (wait, m)
  | some (e, rest) ↦ (fire e.value, record m { heap = rest })
]

unfoldable pub timer_at :
    ℕ → DelayedTaskManager → Option (Reverse DelayedEntry) → TimerAction × DelayedTaskManager
unfolding timer_fire
timer_at now m none = (wait, m)
timer_at now m (some e) =
    if leb e.value.ready_time now
    then timer_fire m
    else (wait_timeout (e.value.ready_time - now), m)

unfoldable pub timer_round : ℕ → DelayedTaskManager → TimerAction × DelayedTaskManager
unfolding timer_at Heap.peek
timer_round now m = if m.shutdown then (quit, m) else timer_at now m (Heap.peek m.heap)
