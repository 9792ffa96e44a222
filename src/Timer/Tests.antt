-- ===== src/Timer/Tests.antt =====
-- A timer of rust_task/timer.rs that ticks and is started again, and one that is stopped before its first
-- tick.
use rust_base.Base.{◌≡◌, refl, true, List, [], ◌∷◌, arith}
use rust_base.Timer.{new, Event, starts, stops, start_schedules, ticks, reschedules, calls, run}
use rust_base.Timer.Stopped.{Dead}

abbrev restarted : List Event
restarted =
    starts
    ∷ start_schedules 0 true
    ∷ ticks 0
    ∷ reschedules 0 true
    ∷ calls 0
    ∷ starts
    ∷ start_schedules 0 true
    ∷ []

abbrev ticks_on : List Event
ticks_on = ticks 1 ∷ reschedules 0 true ∷ ticks 0 ∷ reschedules 0 true ∷ calls 0 ∷ []

ticks_on_lem : (run ticks_on (run restarted new)).called ≡ 1 ∷ 0 ∷ []
unfolding run new
ticks_on_lem = refl

abbrev stopped_early : List Event
stopped_early = starts ∷ start_schedules 0 true ∷ stops ∷ []

stopped_early-Dead : Dead 0 (run stopped_early new)
unfolding run new
stopped_early-Dead = record {
  old = omega arith;
  inactive = refl;
  not_starting = refl;
  not_upgraded = refl;
}
