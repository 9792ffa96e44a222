-- ===== src/Stream/Interval.antt =====
-- `Interval` of rust_async/stream.rs: a consumer that polls, and the timers that the reactor runs.
use rust_base.Base.{
  ℕ, ◌+◌, ◌-◌, ◌<◌, ◌==◌, ◌≡◌, refl, Bool, true, false, Option, none, some, List, [], ◌∷◌,
  if◌then◌else◌, arith, Bool-cases, inl, inr,
}
use rust_base.Sync.{Poll, ready, pending}

-- `timers` counts the delayed tasks that were posted to the reactor and did not run yet.
pub record Interval : Type 0 where
  pub fired : Bool
  pub waker : Option ℕ
  pub scheduled : Bool
  pub timers : ℕ

pub data Event : Type 0 where
  poll : ℕ → Event
  timer : Event

unfoldable pub interval : Interval
interval = record { fired = false; waker = none; scheduled = false; timers = 0 }

-- The number is that of the task that polls.
unfoldable pub interval_poll : ℕ → Interval → Poll (Option Unit) × Interval
interval_poll task i =
    if i.fired
    then (ready (some tt), record i { fired = false; scheduled = false })
    else if i.scheduled
    then (pending, record i { waker = some task })
    else (pending, record i { waker = some task; scheduled = true; timers = i.timers + 1 })

-- The delayed task: the task that it wakes, and the new state.
unfoldable pub tick : Interval → Option ℕ × Interval
tick i = (i.waker, record i { fired = true; waker = none; timers = i.timers - 1 })

unfoldable pub step : Event → Interval → Interval
unfolding interval_poll tick
step (poll task) i = (interval_poll task i).1
step timer i = if i.timers == 0 then i else (tick i).1

unfoldable pub run : List Event → Interval → Interval
unfolding step
run [] i = i
run (e ∷ es) i = run es (step e i)

abbrev pub one_if : Bool → ℕ
one_if true = 1
one_if false = 0

-- An expiry is under way or was not consumed, at most one, and one exactly when one is scheduled.
abbrev pub Balanced : Interval → Type 0
Balanced i = i.timers + one_if i.fired ≡ one_if i.scheduled

module _ (w : Option ℕ) (n : ℕ) where
  polled :
      (task : ℕ) (f s : Bool)
      → n + one_if f ≡ one_if s
      → Balanced (step (poll task) (record { fired = f; waker = w; scheduled = s; timers = n }))
  unfolding step interval_poll
  polled task true true h = omega (arith, h)
  polled task true false h = absurd (omega (arith, h))
  polled task false true h = h
  polled task false false h = omega (arith, h)

  expired :
      (f s : Bool)
      → n + one_if f ≡ one_if s
      → Balanced (step timer (record { fired = f; waker = w; scheduled = s; timers = n }))
  unfolding step tick
  expired f s h = elim (Bool-cases (n == 0)) [
    | inl e ↦ rw e h
    | inr e ↦ rw e (last f s h (ground arith))
  ]
    where
      last : (f s : Bool) → n + one_if f ≡ one_if s → 0 < n → (n - 1) + 1 ≡ one_if s
      last true true h k = absurd (omega (arith, h))
      last true false h k = absurd (omega (arith, h))
      last false true h k = omega (arith, h)
      last false false h k = absurd (omega (arith, h))

step-Balanced : (e : Event) (i : Interval) → Balanced i → Balanced (step e i)
step-Balanced (poll task) i h = polled i.waker i.timers task i.fired i.scheduled h
step-Balanced timer i h = expired i.waker i.timers i.fired i.scheduled h

run-Balanced : (es : List Event) (i : Interval) → Balanced i → Balanced (run es i)
unfolding run
run-Balanced [] i h = h
run-Balanced (e ∷ es) i h = run-Balanced es (step e i) (step-Balanced e i h)

-- Whatever the order of polls and expiries, the timers under way and the expiry that was not consumed are
-- together one when the interval says that it is scheduled, and none when it says that it is not: no
-- tick is lost and no second timer is started.
pub run-timers :
    (es : List Event)
    → (run es interval).timers + one_if (run es interval).fired ≡ one_if (run es interval).scheduled
unfolding interval
run-timers es = run-Balanced es interval refl
