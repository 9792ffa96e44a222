-- ===== src/Async/Tasks/Offloads.antt =====
-- `Offload` of rust_async/task.rs against its states.
use rust_base.Base.{ℕ, ◌≡◌, refl, ap, ◌∙◌, true, false, Option, none, some, List, [], ◌∷◌, ◌++◌}
use rust_base.Sync.{Poll, ready, pending}
use rust_base.Async.Job.{oneshot, set, poll}
use rust_base.Async.Tasks.{Offload, offload, offload_poll, ran, ran_by, asked}
use rust_base.Async.Tasks.Phases.{
  Event, polls, acts, Phase, fresh, over, waits, notified, next, phases,
}

-- An `Offload` with the task whose last poll is pending, the tasks woken since the last poll, and the
-- answers given.
pub record World (J A : Type 0) : Type 0 where
  pub future : Offload J A
  pub waiting : Option ℕ
  pub woken : List ℕ
  pub got : List A

module _ {J A : Type 0} (apply : J → A) where
  abbrev pub polled_by : ℕ → World J A → Poll A × (List ℕ × Offload J A) → World J A
  polled_by task w (pending, (tasks, o)) = record w { future = o; waiting = some task; woken = [] }
  polled_by task w (ready v, (tasks, o)) = record w {
    future = o;
    waiting = none;
    woken = [];
    got = w.got ++ v ∷ [];
  }

  abbrev pub acted : World J A → List ℕ × Offload J A → World J A
  acted w (tasks, o) = record w { future = o; woken = w.woken ++ tasks }

  -- A future is not polled again when it has been ready.
  abbrev pub step : Event → World J A → World J A
  unfolding offload_poll ran
  step (polls task b) w = elim w.got [
    | [] ↦ polled_by task w (offload_poll apply task b w.future)
    | v ∷ vs ↦ w
  ]
  step acts w = acted w (ran apply w.future.posted w.future)

  abbrev pub run : List Event → World J A → World J A
  unfolding step
  run [] w = w
  run (e ∷ es) w = run es (step e w)

  abbrev pub new : J → World J A
  unfolding offload
  new j = record { future = offload j; waiting = none; woken = []; got = [] }

  -- What is there in each state.
  abbrev pub world_of : J → Phase → World J A
  unfolding new
  world_of j fresh = new j
  world_of j (waits t) = record {
    future = record {
      job = none;
      posted = some j;
      state = record { value = none; waker = some t };
    };
    waiting = some t;
    woken = [];
    got = [];
  }
  world_of j (notified t) = record {
    future = record {
      job = none;
      posted = none;
      state = record { value = some (apply j); waker = none };
    };
    waiting = some t;
    woken = t ∷ [];
    got = [];
  }
  world_of j over = record {
    future = record { job = none; posted = none; state = record { value = none; waker = none } };
    waiting = none;
    woken = [];
    got = apply j ∷ [];
  }

  step-next : (j : J) (e : Event) (p : Phase) → step e (world_of j p) ≡ world_of j (next e p)
  unfolding step world_of new offload offload_poll asked ran_by ran oneshot set poll
  step-next j (polls task false) fresh = refl
  step-next j (polls task true) fresh = refl
  step-next j (polls task false) (waits t) = refl
  step-next j (polls task true) (waits t) = refl
  step-next j (polls task false) (notified t) = refl
  step-next j (polls task true) (notified t) = refl
  step-next j (polls task b) over = refl
  step-next j acts fresh = refl
  step-next j acts (waits t) = refl
  step-next j acts (notified t) = refl
  step-next j acts over = refl

  -- An offloaded call is a machine with four states, whatever the tasks poll and wherever the pool is: the
  -- job is in the pool when a task waits; when the pool has run it, the task that polled last has been
  -- woken, and the next poll gives the result, once.
  pub run-phases :
      (j : J) (es : List Event) (p : Phase) → run es (world_of j p) ≡ world_of j (phases es p)
  unfolding run
  run-phases j [] p = refl
  run-phases j (e ∷ es) p = ap (run es) (step-next j e p) ∙ run-phases j es (next e p)
