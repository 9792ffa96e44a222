-- ===== src/Async/Tasks/Phases.antt =====
-- The states of a future of rust_async/task.rs that waits for another thread.
use rust_base.Base.{ℕ, Bool, true, false, List, [], ◌∷◌}

-- Polls by tasks, with whether the other thread does its part in the poll; and that part between polls.
pub data Event : Type 0 where
  polls : ℕ → Bool → Event
  acts : Event

-- Nobody has polled; a task waits; a task waits and has been woken; the future has been ready.
pub data Phase : Type 0 where
  fresh over : Phase
  waits notified : ℕ → Phase

abbrev pub poll_next : ℕ → Bool → Phase → Phase
poll_next task false fresh = waits task
poll_next task true fresh = over
poll_next task false (waits t) = waits task
poll_next task true (waits t) = over
poll_next task b (notified t) = over
poll_next task b over = over

abbrev pub act_next : Phase → Phase
act_next fresh = fresh
act_next (waits t) = notified t
act_next (notified t) = notified t
act_next over = over

abbrev pub next : Event → Phase → Phase
next (polls task b) p = poll_next task b p
next acts p = act_next p

abbrev pub phases : List Event → Phase → Phase
phases [] p = p
phases (e ∷ es) p = phases es (next e p)
