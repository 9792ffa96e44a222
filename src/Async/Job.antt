-- ===== src/Async/Job.antt =====
-- Work that the blocking pool does for a future: the one-shot channel and `fs_blocking` of
-- rust_async/fs.rs. What the closure captures is a value of a type of its own, and a waker is the number
-- of its task.
use rust_base.Base.{ℕ, Option, none, some, List, [], ◌∷◌}
use rust_base.Sync.{Poll, ready, pending}

pub record OneshotState (A : Type 0) : Type 0 where
  pub value : Option A
  pub waker : Option ℕ

abbrev pub woken_by : Option ℕ → List ℕ
woken_by none = []
woken_by (some t) = t ∷ []

-- With the tasks that are woken.
unfoldable pub set : {A : Type 0} → A → OneshotState A → List ℕ × OneshotState A
set v s = (woken_by s.waker, record { value = some v; waker = none })

abbrev pub polled : {A : Type 0} → ℕ → Option A → OneshotState A → Poll A × OneshotState A
polled task none s = (pending, record s { waker = some task })
polled task (some v) s = (ready v, record s { value = none })

unfoldable pub poll : {A : Type 0} → ℕ → OneshotState A → Poll A × OneshotState A
poll task s = polled task s.value s

unfoldable pub oneshot : {A : Type 0} → OneshotState A
oneshot = record { value = none; waker = none }

-- A future with the job that the pool still has for it.
pub record Blocking (J A : Type 0) : Type 0 where
  pub job : Option J
  pub state : OneshotState A

unfoldable pub fs_blocking : {J A : Type 0} → J → Blocking J A
unfolding oneshot
fs_blocking j = record { job = some j; state = oneshot }

-- The pool has run the job.
unfoldable pub completed : {J A : Type 0} → A → Blocking J A → List ℕ × Blocking J A
unfolding set
completed v b = ((set v b.state).0, record { job = none; state = (set v b.state).1 })

-- A poll of the future inside, which is put back where it was.
unfoldable pub poll_job : {J A : Type 0} → ℕ → Blocking J A → Poll A × Blocking J A
unfolding poll
poll_job task b = ((poll task b.state).0, record b { state = (poll task b.state).1 })
