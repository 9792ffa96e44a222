-- ===== src/Async/BlockOn.antt =====
-- `block_on` and `ThreadWaker` of rust_async/block_on.rs, with the threads that complete the future and
-- wake it. The parking of a thread is that of the standard library: a permit, and returns without one.
pub mod Awoken
pub mod Tests
use rust_base.Base.{ℕ, zero, suc, ◌+◌, ◌-◌, ◌==◌, Bool, true, false, List, [], ◌∷◌, if◌then◌else◌}

-- Where the thread is: before a poll, before the swap of `awoken`, in `park`, or out of the loop.
pub data Pc : Type 0 where
  polling swapping parked returned : Pc

-- `completed` is whether the future is ready; `storing` and `unparking` count the wakers that have still
-- to set `awoken`, and those that have set it and have still to unpark the thread.
pub record BlockOn : Type 0 where
  pub pc : Pc
  pub awoken : Bool
  pub permit : Bool
  pub completed : Bool
  pub storing : ℕ
  pub unparking : ℕ

unfoldable pub new : BlockOn
new = record {
  pc = polling;
  awoken = false;
  permit = false;
  completed = false;
  storing = 0;
  unparking = 0;
}

-- A step of the thread; `spurious` is whether `park` returns without a permit.
unfoldable pub thread_step : Bool → Pc → BlockOn → BlockOn
thread_step spurious polling s =
    if s.completed then record s { pc = returned } else record s { pc = swapping }
thread_step spurious swapping s =
    if s.awoken then record s { pc = polling; awoken = false } else record s { pc = parked }
thread_step spurious parked s =
    if s.permit
    then record s { pc = swapping; permit = false }
    else if spurious
    then record s { pc = swapping }
    else s
thread_step spurious returned s = s

-- The two halves of `wake_by_ref`.
unfoldable pub store : ℕ → BlockOn → BlockOn
store zero s = s
store (suc n) s = record s { awoken = true; storing = n; unparking = s.unparking + 1 }

unfoldable pub unpark : ℕ → BlockOn → BlockOn
unpark zero s = s
unpark (suc n) s = record s { permit = true; unparking = n }

-- A wake-up, of a future that is ready then or of one that is not.
unfoldable pub wake : Bool → BlockOn → BlockOn
wake completes s = record s {
  completed = (if completes then true else s.completed);
  storing = s.storing + 1;
}

pub data Event : Type 0 where
  thread wakes : Bool → Event
  stores unparks : Event

unfoldable pub step : Event → BlockOn → BlockOn
unfolding thread_step store unpark wake
step (thread spurious) s = thread_step spurious s.pc s
step (wakes completes) s = wake completes s
step stores s = store s.storing s
step unparks s = unpark s.unparking s

unfoldable pub run : List Event → BlockOn → BlockOn
unfolding step
run [] s = s
run (e ∷ es) s = run es (step e s)
