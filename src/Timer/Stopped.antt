-- ===== src/Timer/Stopped.antt =====
-- What `stop` of rust_task/timer.rs guarantees.
use rust_base.Base.{
  ℕ, ◌<◌, ◌≡◌, ◌≢◌, refl, ◌∙◌, Bool, true, false, Option, none, some, List, [], ◌∷◌, arith, inl,
  inr, Bool-cases,
}
use rust_base.Pool.Schedule.{extract}
use rust_base.Timer.{
  Timer, is_active, can_upgrade, start, stop, schedule_next, started, bind_once, tick, rescheduled,
  called_back, Event, starts, stops, start_schedules, ticks, reschedules, calls, step, run,
}
use rust_base.Timer.Single.{count, any-none, Taken, extract-Taken, calls_of}

-- Nothing holds an `Arc` of the inner state any more.
pub record Dead (id : ℕ) (t : Timer) : Type 0 where
  pub old : id < t.next
  pub inactive : is_active id t.active ≡ false
  pub not_starting : count id t.starting ≡ 0
  pub not_upgraded : count id t.upgraded ≡ 0

Dead-can_upgrade : (id : ℕ) (t : Timer) → Dead id t → can_upgrade id t ≡ false
unfolding can_upgrade
Dead-can_upgrade id t d = ground (
  arith,
  d.inactive,
  any-none id t.starting d.not_starting,
  any-none id t.upgraded d.not_upgraded,
)

-- A step leaves it dead, and begins no call.
StaysDead : ℕ → Timer → Timer → Type 0
StaysDead id t t' = Dead id t' × (calls_of id t' ≡ calls_of id t)

module _ (id : ℕ) (t : Timer) (d : Dead id t) where
  started-StaysDead :
      (b : Bool) (r : Option (ℕ × List ℕ)) → Taken t.starting r → StaysDead id t (started b t r)
  unfolding started schedule_next StaysDead
  started-StaysDead b none k = (d, refl)
  started-StaysDead b (some (i, rest)) k = (
    record {
      old = d.old;
      inactive = d.inactive;
      not_starting = omega (arith, k id, d.not_starting);
      not_upgraded = d.not_upgraded;
    },
    refl,
  )

  tick-StaysDead : (r : Option (ℕ × List ℕ)) → StaysDead id t (tick t r)
  unfolding tick bind_once StaysDead
  tick-StaysDead none = (d, refl)
  tick-StaysDead (some (i, rest)) =
      elim (Bool-cases (can_upgrade i (record t { pending = rest }))) [
        | inl h ↦
            rw (h, bind_once, tick)
              (
                record {
                  old = d.old;
                  inactive = d.inactive;
                  not_starting = d.not_starting;
                  not_upgraded = other i h;
                },
                refl,
              )
        | inr h ↦ rw (h, bind_once, tick) (here, refl)
      ]
    where
      here : Dead id (record t { pending = rest })
      here = record {
        old = d.old;
        inactive = d.inactive;
        not_starting = d.not_starting;
        not_upgraded = d.not_upgraded;
      }

      other :
          (j : ℕ)
          → can_upgrade j (record t { pending = rest }) ≡ true
          → count id (j ∷ t.upgraded) ≡ 0
      other j h =
          let z = Dead-can_upgrade id (record t { pending = rest }) here in
          let n : j ≢ id = (λ e. cc) in ground (arith, d.not_upgraded)

  rescheduled-StaysDead :
      (b : Bool) (r : Option (ℕ × List ℕ)) → Taken t.upgraded r → StaysDead id t (rescheduled b t r)
  unfolding rescheduled schedule_next StaysDead
  rescheduled-StaysDead b none k = (d, refl)
  rescheduled-StaysDead b (some (i, rest)) k = (
    record {
      old = d.old;
      inactive = d.inactive;
      not_starting = d.not_starting;
      not_upgraded = omega (arith, k id, d.not_upgraded);
    },
    omega (arith, k id, d.not_upgraded),
  )

  called_back-StaysDead :
      (r : Option (ℕ × List ℕ)) → Taken t.calling r → StaysDead id t (called_back t r)
  unfolding called_back StaysDead
  called_back-StaysDead none k = (d, refl)
  called_back-StaysDead (some (i, rest)) k = (
    record {
      old = d.old;
      inactive = d.inactive;
      not_starting = d.not_starting;
      not_upgraded = d.not_upgraded;
    },
    omega (arith, k id),
  )

  step-StaysDead : (e : Event) → StaysDead id t (step e t)
  unfolding step start stop StaysDead
  step-StaysDead starts = (
    record {
      old = omega (arith, d.old);
      inactive = ground (arith, d.old);
      not_starting = ground (arith, d.old, d.not_starting);
      not_upgraded = d.not_upgraded;
    },
    refl,
  )
  step-StaysDead stops = (
    record {
      old = d.old;
      inactive = refl;
      not_starting = d.not_starting;
      not_upgraded = d.not_upgraded;
    },
    refl,
  )
  step-StaysDead (start_schedules n b) =
      started-StaysDead b (extract n t.starting) (extract-Taken n t.starting)
  step-StaysDead (ticks n) = tick-StaysDead (extract n t.pending)
  step-StaysDead (reschedules n b) =
      rescheduled-StaysDead b (extract n t.upgraded) (extract-Taken n t.upgraded)
  step-StaysDead (calls n) = called_back-StaysDead (extract n t.calling) (extract-Taken n t.calling)

-- Once a timer was stopped or restarted, and no `start` and no tick holds the old inner state, no
-- schedule begins a call of the old callback, whatever ticks are still in the runner: only the calls
-- that were under way are made.
pub run-stopped :
    (es : List Event) (id : ℕ) (t : Timer) → Dead id t → calls_of id (run es t) ≡ calls_of id t
unfolding run StaysDead
run-stopped [] id t d = refl
run-stopped (e ∷ es) id t d =
    let (d', same) = step-StaysDead id t d e in run-stopped es id (step e t) d' ∙ same
