-- ===== src/Pool/Attended/Step.antt =====
-- Every event leaves every sequence attended.
use rust_base.Base.{
  ℕ, zero, suc, ◌≤◌, ◌≡◌, ◌≢◌, refl, ap, Bool, true, false, ◌||◌, Option, none, some, List, [], ◌∷◌,
  any, All-any-false, any-false-All, Reverse, ◌==◌, ◌&&◌, inl, inr, arith, Bool-cases,
}
use native.Mathlib.Decide.{ℕ_discrete}
use rust_base.Base.Heap
use rust_base.PriorityQueue
use rust_base.PriorityQueue.{entry_ord}
use rust_base.DelayedTaskManager
use rust_base.DelayedTaskManager.{DelayedEntry, DelayedTaskManager, TimerAction, delayed_entry_ord}
use rust_base.DelayedTaskManager.Fired.{Split}
use rust_base.DelayedTaskManager.Deadline.{RoundOf}
use rust_base.Sequence.{Entry}
use rust_base.TaskTracker
use rust_base.ThreadGroup
use rust_base.Pool.Shutdown.{all_exited, shutdown_step}
use rust_base.Pool.Schedule.{extract, deliver_source, deliver_entry, timer_step}
use rust_base.Pool.{Phase, not_called, waiting, drained, joining, stopped, System, push_source}
use rust_base.Pool.Attended.{
  is_due_at, Covered, queued, flying, held, Pending, listed, announced, Awaited, Attended,
  Attended-mono, Attended-Covered,
}

-- What was in the list is the entry that was taken or is among the others.
pub Extracted {ℓ} : {A : Type ℓ} → List A → Option (A × List A) → Type ℓ
Extracted xs none = Unit
Extracted {A = A} xs (some (x, rest)) =
    (p : A → Bool) → any p xs ≡ true → (p x || any p rest) ≡ true

pub extract-Extracted {ℓ} : {A : Type ℓ} (n : ℕ) (xs : List A) → Extracted xs (extract n xs)
unfolding extract Extracted
extract-Extracted n [] = tt
extract-Extracted zero (x ∷ xs) = λ p h. h
extract-Extracted {A = A} (suc n) (x ∷ xs) = go (extract n xs) (extract-Extracted n xs)
  where
    go :
        (r : Option (A × List A))
        → Extracted xs r
        → Extracted (x ∷ xs) (elim r [ none ↦ none | some (y, rest) ↦ some (y, x ∷ rest) ])
    go none k = tt
    go (some (y, rest)) k = λ p h. ground (arith, k p)

module _ (s : System) (a : (t : ℕ) → Attended s t) where
  -- A change of what no sequence depends on.
  pub beside-Attended :
      (s' : System)
      → s'.sequences ≡ s.sequences
      → s'.group.priority_queue ≡ s.group.priority_queue
      → s'.in_flight ≡ s.in_flight
      → s'.workers ≡ s.workers
      → s'.delayed.heap ≡ s.delayed.heap
      → s'.in_flight_delayed ≡ s.in_flight_delayed
      → s.clock ≤ s'.clock
      → (u : ℕ) → Attended s' u
  beside-Attended s' q g f w d fd c u =
      Attended-mono s s' u (ap (λ m. (m u).inner) q) grown pending c (a u)
    where
      grown : Covered s u → Covered s' u
      grown (queued h) = queued (rw g h)
      grown (flying h) = flying (rw f h)
      grown (held j h) = held j (rw w h)

      pending : (r : ℕ) → Pending s u r → Pending s' u r
      pending r (listed h) = listed (rw d h)
      pending r (announced h) = announced (rw fd h)

  pub deliver_source-Attended :
      (o : Option (ℕ × List ℕ))
      → Extracted s.in_flight o
      → (u : ℕ) → Attended (deliver_source s o) u
  unfolding deliver_source push_source ThreadGroup.push_task_source PriorityQueue.push Heap.push
      Extracted
  deliver_source-Attended none x u = a u
  deliver_source-Attended (some (t, rest)) x u =
      Attended-mono s _ u refl grown pending (omega arith) (a u)
    where
      grown : Covered s u → Covered (deliver_source s (some (t, rest))) u
      grown (queued h) = queued (ground arith)
      grown (flying h) = elim (ℕ_discrete t u) [
        | yes f ↦ queued (ground arith)
        | no ne ↦ flying (ground (arith, x (λ v. v == u)))
      ]
      grown (held j h) = held j h

      pending : (r : ℕ) → Pending s u r → Pending (deliver_source s (some (t, rest))) u r
      pending r (listed h) = listed h
      pending r (announced h) = announced h

  pub deliver_entry-Attended :
      (o : Option ((ℕ × ℕ) × List (ℕ × ℕ)))
      → Extracted s.in_flight_delayed o
      → (u : ℕ) → Attended (deliver_entry s o) u
  unfolding deliver_entry DelayedTaskManager.add_sequence Heap.push Extracted
  deliver_entry-Attended none x u = a u
  deliver_entry-Attended (some ((ready_time, t), rest)) x u =
      Attended-mono s _ u refl grown pending (omega arith) (a u)
    where
      grown : Covered s u → Covered (deliver_entry s (some ((ready_time, t), rest))) u
      grown (queued h) = queued h
      grown (flying h) = flying h
      grown (held j h) = held j h

      pending :
          (r : ℕ) → Pending s u r → Pending (deliver_entry s (some ((ready_time, t), rest))) u r
      pending r (listed h) = listed (ground arith)
      pending r (announced h) = elim (Bool-cases (t == u && ready_time == r)) [
        | inl e ↦ listed (ground arith)
        | inr e ↦ announced (ground (arith, x (λ p. p.1 == u && p.0 == r)))
      ]

  -- The timer thread takes an entry that is due, and is about to hand its sequence over.
  fired-Attended :
      (e : DelayedEntry) (m : DelayedTaskManager)
      → e.ready_time ≤ s.clock
      → ((P : Reverse DelayedEntry → Type 0) → Split P s.delayed (TimerAction.fire e, m))
      → (u : ℕ) → Attended (timer_step s (TimerAction.fire e, m)) u
  unfolding timer_step
  fired-Attended e m due split u = elim (ℕ_discrete e.sequence u) [
    | yes f ↦ Attended-Covered s _ u (flying (ground arith)) (λ P h. h) awaited (a u)
    | no ne ↦ Attended-mono s _ u refl grown (kept ne) (omega arith) (a u)
  ]
    where
      left :
          (r : ℕ)
          → is_due_at u r (record { value = e }) ≡ false
          → any (is_due_at u r) s.delayed.heap ≡ true
          → any (is_due_at u r) m.heap ≡ true
      left r f h = elim (Bool-cases (any (is_due_at u r) m.heap)) [
        | inl k ↦ k
        | inr k ↦
            let gone = any-false-All (is_due_at u r) s.delayed.heap (
              (split (λ x. is_due_at u r x ≡ false)).1 f
                (All-any-false (is_due_at u r) m.heap k)) in
            absurd (ground arith)
      ]

      grown : Covered s u → Covered (timer_step s (TimerAction.fire e, m)) u
      grown (queued h) = queued h
      grown (flying h) = flying (ground arith)
      grown (held j h) = held j h

      kept :
          e.sequence ≢ u
          → (r : ℕ) → Pending s u r
          → Pending (timer_step s (TimerAction.fire e, m)) u r
      kept ne r (listed h) = listed (left r (ground arith) h)
      kept ne r (announced h) = announced h

      awaited : (x : Entry _) → Awaited s u x → Awaited (timer_step s (TimerAction.fire e, m)) u x
      awaited x (inr h) = inr h
      awaited x (inl (announced h)) = inl (announced h)
      awaited x (inl (listed h)) =
          elim (Bool-cases (is_due_at u x.value.ready_time (record { value = e }))) [
            | inl k ↦ inr (ground arith)
            | inr k ↦ inl (listed (left x.value.ready_time k h))
          ]

  pub timer_step-Attended :
      (r : TimerAction × DelayedTaskManager)
      → RoundOf s.clock s.delayed r
      → ((P : Reverse DelayedEntry → Type 0) → Split P s.delayed r)
      → (u : ℕ) → Attended (timer_step s r) u
  unfolding timer_step
  timer_step-Attended (TimerAction.fire e, m) o split u = fired-Attended e m o.1 split u
  timer_step-Attended (TimerAction.quit, m) o split u = a u
  timer_step-Attended (TimerAction.wait, m) o split u = a u
  timer_step-Attended (TimerAction.wait_timeout d, m) o split u = a u

  pub shutdown_step-Attended : (p : Phase) (u : ℕ) → Attended (shutdown_step p s) u
  unfolding shutdown_step TaskTracker.begin_shutdown ThreadGroup.signal_shutdown
      DelayedTaskManager.signal_shutdown
  shutdown_step-Attended not_called u =
      beside-Attended _ refl refl refl refl refl refl (omega arith) u
  shutdown_step-Attended waiting u = elim (Bool-cases (TaskTracker.may_return s.tracker)) [
    | inl e ↦
        rw (e, shutdown_step) (beside-Attended _ refl refl refl refl refl refl (omega arith) u)
    | inr e ↦ rw (e, shutdown_step) (a u)
  ]
  shutdown_step-Attended drained u =
      beside-Attended _ refl (ground arith) refl refl refl refl (omega arith) u
  shutdown_step-Attended joining u = elim (Bool-cases (all_exited s.threads s.workers)) [
    | inl e ↦
        rw (e, shutdown_step)
          (beside-Attended _ refl refl refl refl (ground arith) refl (omega arith) u)
    | inr e ↦ rw (e, shutdown_step) (a u)
  ]
  shutdown_step-Attended stopped u = a u
