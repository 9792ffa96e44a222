-- ===== src/Timer.antt =====
-- rust_task/timer.rs: `RepeatingTimer`, a shared access at a time. A `TimerInner` is named by a number,
-- and is alive while the timer, a call of `start` or a tick holds an `Arc` of it. The ticks that were
-- posted to the runner hold a `Weak` (rust_task/bind.rs).
pub mod Single
pub mod Retired
pub mod Ticks
pub mod Stopped
pub mod Tests
use rust_base.Base.{
  ℕ, ◌+◌, Bool, true, false, ◌||◌, Option, none, some, List, [], ◌∷◌, any, ◌==◌, if◌then◌else◌,
  is_some,
}
use rust_base.Pool.Schedule.{extract}

pub record Timer : Type 0 where
  pub next : ℕ
  pub active : Option ℕ
  pub starting : List ℕ  -- calls of `start` before `schedule_next`
  pub pending : List ℕ  -- delayed tasks in the runner
  pub upgraded : List ℕ  -- ticks that hold their `Arc`, before `schedule_next`
  pub calling : List ℕ  -- ticks before the call of the callback
  pub called : List ℕ
  pub lost : List ℕ  -- ticks whose post the runner refused

unfoldable pub new : Timer
new = record {
  next = 0;
  active = none;
  starting = [];
  pending = [];
  upgraded = [];
  calling = [];
  called = [];
  lost = [];
}

abbrev pub is_active : ℕ → Option ℕ → Bool
is_active id none = false
is_active id (some a) = a == id

-- `Weak::upgrade`
unfoldable pub can_upgrade : ℕ → Timer → Bool
can_upgrade id t =
    is_active id t.active || (any (λ i. i == id) t.starting || any (λ i. i == id) t.upgraded)

-- `start` up to the store into `active`, which drops the inner state that was there.
unfoldable pub start : Timer → Timer
start t = record t { next = t.next + 1; active = some t.next; starting = t.next ∷ t.starting }

unfoldable pub stop : Timer → Timer
stop t = record t { active = none }

unfoldable pub is_running : Timer → Bool
is_running t = is_some t.active

-- `schedule_next`: the caller holds an `Arc`, so that the upgrade succeeds. A runner that does not accept
-- the post, as one whose pool was shut down, drops the tick; the answer of `post_delayed_task` is not
-- looked at.
unfoldable pub schedule_next : Bool → ℕ → Timer → Timer
schedule_next accepted id t = record t {
  pending = if accepted then id ∷ t.pending else t.pending;
  lost = if accepted then t.lost else id ∷ t.lost;
}

unfoldable pub started : Bool → Timer → Option (ℕ × List ℕ) → Timer
unfolding schedule_next
started accepted t none = t
started accepted t (some (id, rest)) = schedule_next accepted id (record t { starting = rest })

-- `bind_once` of a `Weak`: the task does nothing when the inner state is gone.
unfoldable pub bind_once : ℕ → Timer → Timer
unfolding can_upgrade
bind_once id t = if can_upgrade id t then record t { upgraded = id ∷ t.upgraded } else t

unfoldable pub tick : Timer → Option (ℕ × List ℕ) → Timer
unfolding bind_once
tick t none = t
tick t (some (id, rest)) = bind_once id (record t { pending = rest })

unfoldable pub rescheduled : Bool → Timer → Option (ℕ × List ℕ) → Timer
unfolding schedule_next
rescheduled accepted t none = t
rescheduled accepted t (some (id, rest)) =
    schedule_next accepted id (record t { upgraded = rest; calling = id ∷ t.calling })

unfoldable pub called_back : Timer → Option (ℕ × List ℕ) → Timer
called_back t none = t
called_back t (some (id, rest)) = record t { calling = rest; called = id ∷ t.called }

pub data Event : Type 0 where
  starts stops : Event
  start_schedules : ℕ → Bool → Event
  ticks : ℕ → Event
  reschedules : ℕ → Bool → Event
  calls : ℕ → Event

unfoldable pub step : Event → Timer → Timer
unfolding start stop started tick rescheduled called_back extract
step starts t = start t
step stops t = stop t
step (start_schedules n accepted) t = started accepted t (extract n t.starting)
step (ticks n) t = tick t (extract n t.pending)
step (reschedules n accepted) t = rescheduled accepted t (extract n t.upgraded)
step (calls n) t = called_back t (extract n t.calling)

unfoldable pub run : List Event → Timer → Timer
unfolding step
run [] t = t
run (e ∷ es) t = run es (step e t)
