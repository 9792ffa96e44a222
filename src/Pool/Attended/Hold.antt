-- ===== src/Pool/Attended/Hold.antt =====
-- A worker with a sequence in hand leaves every sequence attended: it lets go of it only after it has
-- seen that no task is ready, or because another worker owns it.
use rust_base.Base.{
  ℕ, ◌<◌, ◌≡◌, ◌≢◌, refl, ap, subst, ◌∙◌, update, update_self, update-ne, inl, inr, Bool, true,
  false, some, none, Option, All, All-map, All-both, arith,
}
use native.Mathlib.Decide.{ℕ_discrete}
use rust_base.PriorityQueue
use rust_base.PriorityQueue.{QueueEntry, entry_ord}
use rust_base.Base.Heap
use rust_base.Sequence
use rust_base.Sequence.{Entry, Sequence, SequenceInner, RunStatus}
use rust_base.Sequence.Claim.{will_run_task_free, will_run_task_taken}
use rust_base.Sequence.Ready.{not_ready}
use rust_base.Sequence.Flush.{not_due}
use rust_base.Task.{Task}
use rust_base.ThreadGroup
use rust_base.ThreadGroup.{ThreadGroup, Work}
use rust_base.Pool.Callback.{Closure}
use rust_base.Pool.Worker.{claim, start_task}
use rust_base.Pool.{
  Pc, idle, exited, got, claimed, running, finished, checking, requeue, panicked, System,
  set_worker, set_sequence, push_source,
}
use rust_base.Pool.InRange.{token_of}
use rust_base.Pool.Exclusion.{Exclusion, owns, flag_of, owner_of}
use rust_base.Pool.Attended.{
  Covered, queued, flying, held, Pending, listed, announced, Awaited, Attended, resting, Covered-at,
  Attended-mono, Attended-Awaited,
}

owns-token_of : (pc : Pc) (t : ℕ) → owns pc ≡ some t → token_of pc ≡ some t
owns-token_of (claimed u) t e = e
owns-token_of (running u todo) t e = e
owns-token_of (finished u) t e = e
owns-token_of (panicked u) t e = e
owns-token_of idle t e = absurd cc
owns-token_of exited t e = absurd cc
owns-token_of (got u) t e = absurd cc
owns-token_of (checking u) t e = absurd cc
owns-token_of (requeue u) t e = absurd cc

module _ (s : System) (a : (t : ℕ) → Attended s t) (i t : ℕ)
    (has_it : token_of (s.workers i) ≡ some t) where
  -- The worker changes the sequence and keeps it.
  pub kept-Attended :
      (q : Sequence Closure) (pc : Pc)
      → token_of pc ≡ some t
      → ((P : Entry Closure → Type 0)
          → All P (s.sequences t).inner.delayed_queue
          → All P q.inner.delayed_queue)
      → (u : ℕ) → Attended (set_worker i pc (set_sequence t q s)) u
  unfolding set_worker set_sequence
  kept-Attended q pc e keeps u = elim (ℕ_discrete t u) [
    | yes f ↦ subst (Attended _) f (
        Covered-at _ t q (update_self s.sequences t q) (held i (ground arith)) (
          keeps _
            (All-map _ _ awaited (s.sequences t).inner.delayed_queue (Attended-Awaited s t (a t)))))
    | no ne ↦
        Attended-mono s _ u (ap (λ q. q.inner) (update-ne s.sequences t u q ne)) (grown ne) pending
          (omega arith) (a u)
  ]
    where
      pending : {v : ℕ} (r : ℕ) → Pending s v r → Pending (set_worker i pc (set_sequence t q s)) v r
      pending r (listed h) = listed h
      pending r (announced h) = announced h

      grown : t ≢ u → Covered s u → Covered (set_worker i pc (set_sequence t q s)) u
      grown ne (queued h) = queued h
      grown ne (flying h) = flying h
      grown ne (held j h) = held j (ground arith)

      awaited :
          (x : Entry Closure) → Awaited s t x → Awaited (set_worker i pc (set_sequence t q s)) t x
      awaited x (inl h) = inl (pending x.value.ready_time h)
      awaited x (inr h) = inr h

  -- The worker lets go of a sequence that another has.
  refused-Attended :
      (q : Sequence Closure) (j : ℕ)
      → q.inner ≡ (s.sequences t).inner
      → i ≢ j
      → token_of (s.workers j) ≡ some t
      → (u : ℕ) → Attended (set_worker i idle (set_sequence t q s)) u
  unfolding set_worker set_sequence
  refused-Attended q j e ne other u = Attended-mono s _ u same grown pending (omega arith) (a u)
    where
      same : (update s.sequences t q u).inner ≡ (s.sequences u).inner
      same = elim (ℕ_discrete t u) [
        | yes f ↦
            subst (λ v. (update s.sequences t q v).inner ≡ (s.sequences v).inner) f
              (ap (λ r. r.inner) (update_self s.sequences t q) ∙ e)
        | no f ↦ ap (λ r. r.inner) (update-ne s.sequences t u q f)
      ]

      grown : Covered s u → Covered (set_worker i idle (set_sequence t q s)) u
      grown (queued h) = queued h
      grown (flying h) = flying h
      grown (held k h) = elim (ℕ_discrete i k) [
        | yes f ↦ held j (ground arith)
        | no f ↦ held k (ground arith)
      ]

      pending : (r : ℕ) → Pending s u r → Pending (set_worker i idle (set_sequence t q s)) u r
      pending r (listed h) = listed h
      pending r (announced h) = announced h

  pub claim-Attended :
      (b : Bool)
      → flag_of s t ≡ b
      → owner_of s i ≡ none
      → Exclusion (flag_of s) (owner_of s)
      → (u : ℕ) → Attended (claim i t s (Sequence.will_run_task (s.sequences t))) u
  unfolding claim
  claim-Attended true e o x u =
      let (j, f) = x.flagged t e in
      rw (will_run_task_taken (s.sequences t) e)
        (refused-Attended _ j refl (λ same. ground arith) (owns-token_of (s.workers j) t f) u)
  claim-Attended false e o x u =
      rw (will_run_task_free (s.sequences t) e) (kept-Attended _ (claimed t) refl (λ P h. h) u)

  pub start_task-Attended :
      (r : Option (Task Closure) × Sequence Closure)
      → ((P : Entry Closure → Type 0)
          → All P (s.sequences t).inner.delayed_queue
          → All P r.1.inner.delayed_queue)
      → (u : ℕ) → Attended (start_task i t s r) u
  unfolding start_task
  start_task-Attended (none, q) keeps u = kept-Attended q (finished t) refl keeps u
  start_task-Attended (some task, q) keeps u = kept-Attended q (running t _) refl keeps u

  -- The worker lets go of a sequence in which it has seen no task that is ready.
  pub rested-Attended :
      Sequence.has_ready_tasks s.clock (s.sequences t) ≡ false
      → (u : ℕ) → Attended (set_worker i idle s) u
  unfolding set_worker Sequence.has_ready_tasks
  rested-Attended h u = elim (ℕ_discrete t u) [
    | yes f ↦ subst (Attended _) f at_rest
    | no ne ↦ Attended-mono s _ u refl (grown ne) pending (omega arith) (a u)
  ]
    where
      pending : {v : ℕ} (r : ℕ) → Pending s v r → Pending (set_worker i idle s) v r
      pending r (listed h) = listed h
      pending r (announced h) = announced h

      grown : t ≢ u → Covered s u → Covered (set_worker i idle s) u
      grown ne (queued h) = queued h
      grown ne (flying h) = flying h
      grown ne (held j h) = held j (ground arith)

      still_pending :
          (x : Entry Closure)
          → Awaited s t x × (s.clock < x.value.ready_time)
          → Pending (set_worker i idle s) t x.value.ready_time
      still_pending x (inl h, k) = pending x.value.ready_time h
      still_pending x (inr h, k) = absurd (omega arith)

      at_rest : Attended (set_worker i idle s) t
      at_rest =
          let (empty, idle_queue) = not_ready s.clock (s.sequences t).inner h in
          resting empty (
            All-map _ _ still_pending (s.sequences t).inner.delayed_queue (
              All-both _ _ (s.sequences t).inner.delayed_queue (Attended-Awaited s t (a t))
                (not_due s.clock (s.sequences t).inner idle_queue)))

  -- The worker gives the sequence back to the queue.
  pub requeued-Attended : (u : ℕ) → Attended (set_worker i idle (push_source t s)) u
  unfolding set_worker push_source ThreadGroup.push_task_source PriorityQueue.push Heap.push
  requeued-Attended u = Attended-mono s _ u refl grown pending (omega arith) (a u)
    where
      grown : Covered s u → Covered (set_worker i idle (push_source t s)) u
      grown (queued h) = queued (ground arith)
      grown (flying h) = flying h
      grown (held j h) = elim (ℕ_discrete t u) [
        | yes f ↦ queued (ground arith)
        | no ne ↦ held j (ground arith)
      ]

      pending : (r : ℕ) → Pending s u r → Pending (set_worker i idle (push_source t s)) u r
      pending r (listed h) = listed h
      pending r (announced h) = announced h
