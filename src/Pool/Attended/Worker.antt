-- ===== src/Pool/Attended/Worker.antt =====
-- A worker leaves every sequence attended: it lets go of one only after it has seen that no task is
-- ready, or because another worker owns it.
use rust_base.Base.{
  ℕ, ◌≡◌, ◌≢◌, refl, inl, inr, true, false, some, none, any, All-any-false, any-false-All,
  Bool-cases, arith,
}
use native.Mathlib.Decide.{ℕ_discrete}
use rust_base.PriorityQueue.{QueueEntry}
use rust_base.ThreadGroup.{ThreadGroup, Work}
use rust_base.ThreadGroup.Popped.{Restored}
use rust_base.Pool.Worker.{take_work}
use rust_base.Pool.{Pc, exited, System, set_worker}
use rust_base.Pool.InRange.{token_of}
use rust_base.Pool.Attended.{
  is_source, Covered, queued, flying, held, Pending, listed, announced, Attended, Attended-mono,
}

module _ (s : System) (a : (t : ℕ) → Attended s t) (i : ℕ) where
  -- A worker that keeps the sequence that it has, or takes one up.
  pub moved-Attended :
      (pc : Pc)
      → ((t : ℕ) → token_of (s.workers i) ≡ some t → token_of pc ≡ some t)
      → (u : ℕ) → Attended (set_worker i pc s) u
  unfolding set_worker
  moved-Attended pc k u = Attended-mono s _ u refl grown pending (omega arith) (a u)
    where
      grown : Covered s u → Covered (set_worker i pc s) u
      grown (queued h) = queued h
      grown (flying h) = flying h
      grown (held j h) = held j (ground (arith, k u))

      pending : (r : ℕ) → Pending s u r → Pending (set_worker i pc s) u r
      pending r (listed h) = listed h
      pending r (announced h) = announced h

  -- The queue after a pop covers what it covered, but for the source that was taken.
  popped_any :
      (t u : ℕ) (g : ThreadGroup)
      → ((P : QueueEntry → Type 0) → Restored P s.group (Work.run t, g))
      → t ≢ u
      → any (is_source u) s.group.priority_queue.heap ≡ true
      → any (is_source u) g.priority_queue.heap ≡ true
  popped_any t u g restored ne h = elim (Bool-cases (any (is_source u) g.priority_queue.heap)) [
    | inl e ↦ e
    | inr e ↦
        let none_left = any-false-All (is_source u) s.group.priority_queue.heap (
          restored (λ x. is_source u x ≡ false) (λ x f. ground arith)
            (All-any-false (is_source u) g.priority_queue.heap e)) in
        absurd (ground arith)
  ]

  pub take_work-Attended :
      (r : Work × ThreadGroup)
      → ((P : QueueEntry → Type 0) → Restored P s.group r)
      → token_of (s.workers i) ≡ none
      → (u : ℕ) → Attended (take_work i s r) u
  unfolding take_work
  take_work-Attended (Work.leave, g) restored e u = moved-Attended exited (λ t f. cc) u
  take_work-Attended (Work.wait, g) restored e u = a u
  take_work-Attended (Work.run t, g) restored e u =
      Attended-mono s _ u refl grown pending (omega arith) (a u)
    where
      grown : Covered s u → Covered (take_work i s (Work.run t, g)) u
      grown (queued h) = elim (ℕ_discrete t u) [
        | yes f ↦ held i (ground arith)
        | no ne ↦ queued (popped_any t u g restored ne h)
      ]
      grown (flying h) = flying h
      grown (held j h) = held j (ground arith)

      pending : (r : ℕ) → Pending s u r → Pending (take_work i s (Work.run t, g)) u r
      pending r (listed h) = listed h
      pending r (announced h) = announced h
