-- ===== src/Sequence/Ready.antt =====
-- When a sequence has a task to hand out.
use rust_base.Base.{
  ℕ, zero, suc, ◌≡◌, refl, sym, ap, ◌∙◌, ◌↔◌, append-nil, append_assoc, true, false, Option, none,
  some, List, [], ◌∷◌, ◌++◌, length, inl, inr, Bool-cases, arith,
}
use rust_base.Base.Heap.Laws
use rust_base.Task.{Task}
use rust_base.Sequence.{
  SequenceInner, Sequence, delayed_ready, flush_one, flush_loop, flush_ready_delayed_tasks,
  has_ready, has_ready_tasks, take_task, take_task_inner, pop_front,
}
use rust_base.Sequence.Flush.{round, flush_one_lem}

module _ {C : Type 0} where
  -- A take, from what the flush leaves.
  pub take_task_lem :
      (now : ℕ) (s : Sequence C) (flushed : SequenceInner C) (q : List (Task C))
      → flush_ready_delayed_tasks now s.inner ≡ flushed
      → flushed.immediate_queue ≡ q
      → take_task now s ≡ ((pop_front flushed q).0, record s { inner = (pop_front flushed q).1 })
  unfolding take_task take_task_inner
  take_task_lem now s flushed q e f = ap (λ i. popped i i.immediate_queue) e ∙ ap (popped flushed) f
    where
      popped : SequenceInner C → List (Task C) → Option (Task C) × Sequence C
      popped i ts = ((pop_front i ts).0, record s { inner = (pop_front i ts).1 })

  pub not_ready :
      (now : ℕ) (inner : SequenceInner C)
      → has_ready now inner ≡ false
      → (inner.immediate_queue ≡ []) × (delayed_ready now inner ≡ false)
  unfolding has_ready
  not_ready now inner h = ground arith

  flush_idle :
      (fuel now : ℕ) (inner : SequenceInner C)
      → delayed_ready now inner ≡ false
      → flush_loop fuel now inner ≡ inner
  unfolding flush_loop
  flush_idle zero now inner h = refl
  flush_idle (suc fuel) now inner h = rw (h, flush_loop)

  take_none :
      (now : ℕ) (s : Sequence C) → has_ready_tasks now s ≡ false → take_task now s ≡ (none, s)
  unfolding flush_ready_delayed_tasks has_ready_tasks pop_front
  take_none now s h =
      let (empty, idle) = not_ready now s.inner h in
      take_task_lem now s s.inner [] (flush_idle (length s.inner.delayed_queue) now s.inner idle)
        empty

  -- The queue of one state continues that of another.
  Grows : SequenceInner C → SequenceInner C → Type 0
  Grows i j = (q : List (Task C)) × (j.immediate_queue ≡ i.immediate_queue ++ q)

  flush_loop-Grows : (fuel now : ℕ) (i : SequenceInner C) → Grows i (flush_loop fuel now i)
  unfolding flush_loop Grows
  flush_loop-Grows zero now i = ([], sym (append-nil i.immediate_queue))
  flush_loop-Grows (suc fuel) now i = elim (Bool-cases (delayed_ready now i)) [
    | inr e ↦ ([], rw (e, flush_loop) (sym (append-nil i.immediate_queue)))
    | inl e ↦
        let r = round now i e in
        let (q, more) = flush_loop-Grows fuel now (flush_one i) in
        (
          (r.entry.value.task ∷ []) ++ q,
          rw (e, flush_loop)
              (more
                ∙ ap (λ (j : SequenceInner C). j.immediate_queue ++ q) (flush_one_lem i r.popped)
                ∙ append_assoc i.immediate_queue _ q),
        )
  ]

  Nonempty : List (Task C) → Type 0
  Nonempty q = (t : Task C) × (ts : List (Task C)) × (q ≡ t ∷ ts)

  append-Nonempty : (q r : List (Task C)) → Nonempty q → Nonempty (q ++ r)
  unfolding Nonempty
  append-Nonempty q r (t, ts, e) = (t, ts ++ r, ap (λ (x : List (Task C)). x ++ r) e)

  snoc-Nonempty : (q : List (Task C)) (t : Task C) → Nonempty (q ++ t ∷ [])
  unfolding Nonempty
  snoc-Nonempty [] t = (t, [], refl)
  snoc-Nonempty (x ∷ q) t = (x, q ++ t ∷ [], refl)

  Grows-Nonempty :
      (i j : SequenceInner C) → Grows i j → Nonempty i.immediate_queue → Nonempty j.immediate_queue
  unfolding Grows
  Grows-Nonempty i j (q, e) n = rw e (append-Nonempty i.immediate_queue q n)

  due-Nonempty :
      (now : ℕ) (i : SequenceInner C)
      → delayed_ready now i ≡ true
      → (n : ℕ) → n ≡ length i.delayed_queue
      → Nonempty (flush_loop n now i).immediate_queue
  unfolding flush_loop
  due-Nonempty now i e zero h =
      absurd (omega (arith, Laws.pop-length i.delayed_queue (round now i e).popped))
  due-Nonempty now i e (suc n) h =
      let r = round now i e in
      rw (e, flush_loop)
        (Grows-Nonempty (flush_one i) _ (flush_loop-Grows n now (flush_one i))
          (rw (flush_one_lem i r.popped) (snoc-Nonempty i.immediate_queue r.entry.value.task)))

  -- A queue that holds a task, or that a due task comes to, holds one after the flush.
  flush-Nonempty :
      (now : ℕ) (i : SequenceInner C) (q : List (Task C))
      → i.immediate_queue ≡ q
      → has_ready now i ≡ true
      → Nonempty (flush_ready_delayed_tasks now i).immediate_queue
  unfolding flush_ready_delayed_tasks has_ready Nonempty
  flush-Nonempty now i [] e h = due-Nonempty now i (ground arith) (length i.delayed_queue) refl
  flush-Nonempty now i (t ∷ ts) e h =
      Grows-Nonempty i _ (flush_loop-Grows (length i.delayed_queue) now i) (t, ts, e)

  take_some :
      (now : ℕ) (s : Sequence C)
      → has_ready_tasks now s ≡ true
      → (t : Task C) × ((take_task now s).0 ≡ some t)
  unfolding has_ready_tasks Nonempty pop_front
  take_some now s h =
      let (t, ts, e) = flush-Nonempty now s.inner s.inner.immediate_queue refl h in
      (
        t,
        ap (λ p. p.0) (take_task_lem now s (flush_ready_delayed_tasks now s.inner) (t ∷ ts) refl e),
      )

  -- A take comes back empty exactly when no task was ready.
  pub take_task-has_ready_tasks :
      (now : ℕ) (s : Sequence C) → ((take_task now s).0 ≡ none) ↔ (has_ready_tasks now s ≡ false)
  take_task-has_ready_tasks now s = (to, λ h. ap (λ p. p.0) (take_none now s h))
    where
      to : (take_task now s).0 ≡ none → has_ready_tasks now s ≡ false
      to e = elim (Bool-cases (has_ready_tasks now s)) [
        | inl h ↦ let (t, f) = take_some now s h in absurd (ground arith)
        | inr h ↦ h
      ]
