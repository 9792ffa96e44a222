-- ===== src/Async/Tasks/Timers.antt =====
-- `Timer` of rust_async/task.rs against its states.
use rust_base.Base.{ℕ, ◌≡◌, refl, ap, ◌∙◌, true, false, Option, none, some, List, [], ◌∷◌, ◌++◌}
use rust_base.Sync.{Poll, ready, pending}
use rust_base.Async.Tasks.{Timer, sleep, timer_poll, schedule, fire, fired_by}
use rust_base.Async.Tasks.Phases.{Event, polls, acts, Phase, fresh, over, waits, notified, next}

-- A timer with the task whose last poll is pending, and the tasks woken since the last poll.
pub record World : Type 0 where
  pub timer : Timer
  pub waiting : Option ℕ
  pub woken : List ℕ

abbrev pub polled_by : ℕ → World → Poll Unit × (List ℕ × Timer) → World
polled_by task w (pending, (tasks, t)) = record w { timer = t; waiting = some task; woken = tasks }
polled_by task w (ready u, (tasks, t)) = record w { timer = t; waiting = none; woken = [] }

abbrev pub acted : World → List ℕ × Timer → World
acted w (tasks, t) = record w { timer = t; woken = w.woken ++ tasks }

-- The reactor runs the delayed task if it has it.
abbrev pub acts_on : Option ℕ → World → World
unfolding fire
acts_on none w = w
acts_on (some dur) w = acted w (fire w.timer)

abbrev pub step : Event → World → World
unfolding timer_poll acts_on
step (polls task b) w = polled_by task w (timer_poll task b w.timer)
step acts w = acts_on w.timer.posted w

abbrev pub run : List Event → World → World
unfolding step
run [] w = w
run (e ∷ es) w = run es (step e w)

-- A delayed task that runs in the poll that posts it wakes the task that polls.
abbrev pub timer_next : Event → Phase → Phase
timer_next (polls task true) fresh = notified task
timer_next (polls task b) (waits t) = waits task
timer_next e p = next e p

abbrev pub timer_phases : List Event → Phase → Phase
timer_phases [] p = p
timer_phases (e ∷ es) p = timer_phases es (timer_next e p)

-- What is there in each state.
abbrev pub world_of : ℕ → Phase → World
unfolding sleep
world_of dur fresh = record { timer = sleep dur; waiting = none; woken = [] }
world_of dur (waits t) = record {
  timer = record {
    dur = dur;
    state = record { fired = false; waker = some t };
    scheduled = true;
    posted = some dur;
  };
  waiting = some t;
  woken = [];
}
world_of dur (notified t) = record {
  timer = record {
    dur = dur;
    state = record { fired = true; waker = none };
    scheduled = true;
    posted = none;
  };
  waiting = some t;
  woken = t ∷ [];
}
world_of dur over = record {
  timer = record {
    dur = dur;
    state = record { fired = true; waker = none };
    scheduled = true;
    posted = none;
  };
  waiting = none;
  woken = [];
}

step-next :
    (dur : ℕ) (e : Event) (p : Phase) → step e (world_of dur p) ≡ world_of dur (timer_next e p)
unfolding step world_of sleep timer_poll schedule fired_by acts_on fire
step-next dur (polls task false) fresh = refl
step-next dur (polls task true) fresh = refl
step-next dur (polls task false) (waits t) = refl
step-next dur (polls task true) (waits t) = refl
step-next dur (polls task false) (notified t) = refl
step-next dur (polls task true) (notified t) = refl
step-next dur (polls task false) over = refl
step-next dur (polls task true) over = refl
step-next dur acts fresh = refl
step-next dur acts (waits t) = refl
step-next dur acts (notified t) = refl
step-next dur acts over = refl

-- A timer is a machine with four states, whatever the tasks poll and whenever it fires: the reactor has
-- one delayed task of its delay from the first poll on; when that has run, the task that polled last has
-- been woken, and every later poll is ready.
pub run-timer_phases :
    (dur : ℕ) (es : List Event) (p : Phase)
    → run es (world_of dur p) ≡ world_of dur (timer_phases es p)
unfolding run
run-timer_phases dur [] p = refl
run-timer_phases dur (e ∷ es) p =
    ap (run es) (step-next dur e p) ∙ run-timer_phases dur es (timer_next e p)
