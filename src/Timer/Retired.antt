-- ===== src/Timer/Retired.antt =====
-- The chain of ticks of an inner state that a timer of rust_task/timer.rs has let go.
use rust_base.Base.{
  ℕ, ◌+◌, ◌<◌, ◌≡◌, ◌≢◌, refl, ◌∙◌, Bool, true, false, Option, none, some, List, [], ◌∷◌, arith,
  inl, inr, Bool-cases,
}
use rust_base.Pool.Schedule.{extract}
use rust_base.Timer.{
  Timer, is_active, can_upgrade, start, stop, schedule_next, started, bind_once, tick, rescheduled,
  called_back, Event, starts, stops, start_schedules, ticks, reschedules, calls, step, run,
}
use rust_base.Timer.Single.{count, any-none, Taken, extract-Taken, calls_of, Single, step-Single}

-- The calls that were begun, and those of the ticks that hold an `Arc`.
abbrev pub bound : ℕ → Timer → ℕ
bound id t = calls_of id t + count id t.upgraded

-- The timer has let go of it, for good, and no further call becomes bound to happen.
LetGo : ℕ → Timer → Timer → Type 0
LetGo id t t' = (id < t'.next) × (is_active id t'.active ≡ false) × (bound id t' ≡ bound id t)

module _ (id : ℕ) (t : Timer) (x : Single t) (old : id < t.next)
    (gone : is_active id t.active ≡ false) where
  started-LetGo :
      (b : Bool) (r : Option (ℕ × List ℕ)) → Taken t.starting r → LetGo id t (started b t r)
  unfolding started schedule_next LetGo
  started-LetGo b none k = (old, gone, refl)
  started-LetGo b (some (i, rest)) k = (old, gone, refl)

  -- A tick in the runner is the only one of its chain, so that nothing else holds the inner state.
  tick-LetGo : (r : Option (ℕ × List ℕ)) → Taken t.pending r → LetGo id t (tick t r)
  unfolding tick bind_once LetGo
  tick-LetGo none k = (old, gone, refl)
  tick-LetGo (some (i, rest)) k = elim (Bool-cases (can_upgrade i (record t { pending = rest }))) [
    | inl h ↦ rw (h, bind_once, tick) (old, gone, ground (arith, other h))
    | inr h ↦ rw (h, bind_once, tick) (old, gone, refl)
  ]
    where
      other : can_upgrade i (record t { pending = rest }) ≡ true → i ≢ id
      other h e =
          let one = x.at_most_one id in
          let mine = k id in
          let s : count id t.starting ≡ 0 = ground arith in
          let u : count id t.upgraded ≡ 0 = ground arith in
          let z = any-none id t.starting s in
          let v = any-none id t.upgraded u in unfold can_upgrade in ground arith

  rescheduled-LetGo :
      (b : Bool) (r : Option (ℕ × List ℕ)) → Taken t.upgraded r → LetGo id t (rescheduled b t r)
  unfolding rescheduled schedule_next LetGo
  rescheduled-LetGo b none k = (old, gone, refl)
  rescheduled-LetGo b (some (i, rest)) k = (old, gone, omega (arith, k id))

  called_back-LetGo : (r : Option (ℕ × List ℕ)) → Taken t.calling r → LetGo id t (called_back t r)
  unfolding called_back LetGo
  called_back-LetGo none k = (old, gone, refl)
  called_back-LetGo (some (i, rest)) k = (old, gone, omega (arith, k id))

  step-LetGo : (e : Event) → LetGo id t (step e t)
  unfolding step start stop LetGo
  step-LetGo starts = (omega arith, ground arith, refl)
  step-LetGo stops = (old, refl, refl)
  step-LetGo (start_schedules n b) =
      started-LetGo b (extract n t.starting) (extract-Taken n t.starting)
  step-LetGo (ticks n) = tick-LetGo (extract n t.pending) (extract-Taken n t.pending)
  step-LetGo (reschedules n b) =
      rescheduled-LetGo b (extract n t.upgraded) (extract-Taken n t.upgraded)
  step-LetGo (calls n) = called_back-LetGo (extract n t.calling) (extract-Taken n t.calling)

-- What the timer has let go of begins no call any more but those of the ticks that hold it.
pub run-bound :
    (es : List Event) (id : ℕ) (t : Timer)
    → Single t
    → id < t.next
    → is_active id t.active ≡ false
    → bound id (run es t) ≡ bound id t
unfolding run LetGo
run-bound [] id t x old gone = refl
run-bound (e ∷ es) id t x old gone =
    let (o, g, same) = step-LetGo id t x old gone e in
    run-bound es id (step e t) (step-Single t x e) o g ∙ same
