-- ===== src/Async/Tasks.antt =====
-- The futures of rust_async/task.rs. A task is a number, a poll by it may post work to another thread, and
-- what that thread has done with it before the poll goes on is an argument.
pub mod Phases
pub mod Offloads
pub mod Timers
pub mod Tests
use rust_base.Base.{ℕ, Bool, true, false, Option, none, some, List, [], ◌∷◌, if◌then◌else◌}
use rust_base.Sync.{Poll, ready, pending}
use rust_base.Async.Job.{OneshotState, oneshot, set, poll, woken_by}

pub record YieldNow : Type 0 where
  pub yielded : Bool

unfoldable pub yield_now : YieldNow
yield_now = record { yielded = false }

-- With the tasks that are woken.
unfoldable pub yield_poll : ℕ → YieldNow → Poll Unit × (List ℕ × YieldNow)
yield_poll task y =
    if y.yielded then (ready tt, ([], y)) else (pending, (task ∷ [], record { yielded = true }))

pub record TimerState : Type 0 where
  pub fired : Bool
  pub waker : Option ℕ

-- `posted` is the delayed task that the reactor has, with its delay.
pub record Timer : Type 0 where
  pub dur : ℕ
  pub state : TimerState
  pub scheduled : Bool
  pub posted : Option ℕ

unfoldable pub sleep : ℕ → Timer
sleep dur = record {
  dur = dur;
  state = record { fired = false; waker = none };
  scheduled = false;
  posted = none;
}

-- The delayed task runs.
unfoldable pub fire : Timer → List ℕ × Timer
fire t = (
  woken_by t.state.waker,
  record t { state = record { fired = true; waker = none }; posted = none },
)

abbrev pub fired_by : Bool → Timer → List ℕ × Timer
unfolding fire
fired_by false t = ([], t)
fired_by true t = fire t

-- The delayed task is posted once.
abbrev pub schedule : Bool → Timer → List ℕ × Timer
unfolding fired_by
schedule fires t =
    if t.scheduled
    then ([], t)
    else fired_by fires (record t { scheduled = true; posted = some t.dur })

unfoldable pub timer_poll : ℕ → Bool → Timer → Poll Unit × (List ℕ × Timer)
unfolding schedule
timer_poll task fires t =
    if t.state.fired
    then (ready tt, ([], t))
    else (pending, schedule fires (record t { state = record t.state { waker = some task } }))

pub data TimeoutError : Type 0 where
  timeout_error : TimeoutError

-- `Result<F::Output, TimeoutError>`
pub data Timed (A : Type 0) : Type 0 where
  ok : A → Timed A
  err : TimeoutError → Timed A

-- The future inside has a state of any type.
pub record Timeout (F : Type 0) : Type 0 where
  pub future : F
  pub timer : Timer

unfoldable pub timeout : {F : Type 0} → ℕ → F → Timeout F
unfolding sleep
timeout dur future = record { future = future; timer = sleep dur }

abbrev pub timed :
    {F A : Type 0} → F → Poll Unit × (List ℕ × Timer) → Poll (Timed A) × (List ℕ × Timeout F)
timed future (pending, (woken, t)) = (pending, (woken, record { future = future; timer = t }))
timed future (ready u, (woken, t)) =
    (ready (err timeout_error), (woken, record { future = future; timer = t }))

abbrev pub timeout_after :
    {F A : Type 0} → ℕ → Bool → Timer → Poll A × F → Poll (Timed A) × (List ℕ × Timeout F)
unfolding timer_poll
timeout_after task fires t (ready v, future) =
    (ready (ok v), ([], record { future = future; timer = t }))
timeout_after task fires t (pending, future) = timed future (timer_poll task fires t)

-- The first argument is the poll of the future inside.
unfoldable pub timeout_poll :
    {F A : Type 0}
    → (ℕ → F → Poll A × F)
    → ℕ
    → Bool
    → Timeout F
    → Poll (Timed A) × (List ℕ × Timeout F)
unfolding timeout_after
timeout_poll inner task fires t = timeout_after task fires t.timer (inner task t.future)

-- `posted` is the job that the pool has.
pub record Offload (J A : Type 0) : Type 0 where
  pub job : Option J
  pub posted : Option J
  pub state : OneshotState A

unfoldable pub offload : {J A : Type 0} → J → Offload J A
unfolding oneshot
offload j = record { job = some j; posted = none; state = oneshot }

abbrev pub posted_from : {J A : Type 0} → Option J → Offload J A → Offload J A
posted_from none o = o
posted_from (some j) o = record o { job = none; posted = some j }

-- The pool runs the job that it has, which gives `apply j`.
unfoldable pub ran : {J A : Type 0} → (J → A) → Option J → Offload J A → List ℕ × Offload J A
unfolding set
ran apply none o = ([], o)
ran apply (some j) o =
    ((set (apply j) o.state).0, record o { posted = none; state = (set (apply j) o.state).1 })

unfoldable pub ran_by : {J A : Type 0} → Bool → (J → A) → Offload J A → List ℕ × Offload J A
unfolding ran
ran_by false apply o = ([], o)
ran_by true apply o = ran apply o.posted o

unfoldable pub asked : {J A : Type 0} → ℕ → List ℕ × Offload J A → Poll A × (List ℕ × Offload J A)
unfolding poll
asked task (woken, o) = ((poll task o.state).0, (woken, record o { state = (poll task o.state).1 }))

unfoldable pub offload_poll :
    {J A : Type 0} → (J → A) → ℕ → Bool → Offload J A → Poll A × (List ℕ × Offload J A)
unfolding asked ran_by
offload_poll apply task runs o = asked task (ran_by runs apply (posted_from o.job o))
