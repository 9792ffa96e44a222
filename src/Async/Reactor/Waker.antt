-- ===== src/Async/Reactor/Waker.antt =====
-- A poll of a source of rust_async/reactor.rs that is pending has left the waker of its task.
use rust_base.Base.{
  ℕ, ◌≡◌, refl, Bool, true, false, Option, none, some, if◌then◌else◌, Bool-cases, inl, inr, arith,
}
use rust_base.Sync.{Poll, ready, pending}
use rust_base.Io.Pump.{WatchMode}
use rust_base.Async.Reactor.{
  Source, desired_of, same_mode, arm, arm_desired, update_arm, poll_readable, poll_writable,
}

arm_desired-wakers :
    (io : ℕ) (m : Option WatchMode) (s : Source)
    → ((arm_desired io m s).state.read_waker ≡ s.state.read_waker)
      × ((arm_desired io m s).state.write_waker ≡ s.state.write_waker)
unfolding arm_desired arm
arm_desired-wakers io none s = (refl, refl)
arm_desired-wakers io (some m) s = (refl, refl)

update_arm-wakers :
    (io : ℕ) (s : Source)
    → ((update_arm io s).state.read_waker ≡ s.state.read_waker)
      × ((update_arm io s).state.write_waker ≡ s.state.write_waker)
unfolding update_arm
update_arm-wakers io s =
    let d = desired_of s.state.read_waker s.state.write_waker in
    elim (Bool-cases (same_mode d s.state.armed)) [
      | inl e ↦ rw e (refl, refl)
      | inr e ↦ rw e (arm_desired-wakers io d (record s { state = record s.state { armed = d } }))
    ]

if-waits :
    (b : Bool) (x y : Poll Unit × Source) (P : Source → Type 0)
    → x.0 ≡ ready tt
    → P y.1
    → (if b then x else y).0 ≡ pending
    → P (if b then x else y).1
if-waits true x y P e h k = ground arith
if-waits false x y P e h k = h

pub poll_readable-pending :
    (io task : ℕ) (s : Source)
    → (poll_readable io task s).0 ≡ pending
    → (poll_readable io task s).1.state.read_waker ≡ some task
unfolding poll_readable
poll_readable-pending io task s =
    if-waits s.state.read_ready _ _ (λ t. t.state.read_waker ≡ some task) refl
      (update_arm-wakers io (record s { state = record s.state { read_waker = some task } })).0

pub poll_writable-pending :
    (io task : ℕ) (s : Source)
    → (poll_writable io task s).0 ≡ pending
    → (poll_writable io task s).1.state.write_waker ≡ some task
unfolding poll_writable
poll_writable-pending io task s =
    if-waits s.state.write_ready _ _ (λ t. t.state.write_waker ≡ some task) refl
      (update_arm-wakers io (record s { state = record s.state { write_waker = some task } })).1
