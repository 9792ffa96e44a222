-- ===== src/Sequence/Order.antt =====
-- The order in which a sequence hands out its tasks.
use rust_base.Base.{
  ℕ, ◌≡◌, refl, ◌∙◌, ap, Option, none, some, List, [], ◌∷◌, ◌++◌, map, append-nil, append_assoc,
  length, sym, subst,
}
use mathlib.Core.List.{map-append}
use rust_base.Task.{Task, new_task}
use rust_base.Sequence.Ready.{take_task_lem}
use rust_base.Sequence.{
  Sequence, push_task, take_task, flush_ready_delayed_tasks, flush_loop, pop_front,
}

-- What is done to a sequence: a task is posted, or one is taken at an instant.
pub data Op (C : Type 0) : Type 0 where
  post : C → Op C
  take : ℕ → Op C

module _ {C : Type 0} where
  abbrev pub callbacks : List (Task C) → List C
  callbacks = map (λ t. t.callback)

  abbrev emit : Option (Task C) → List C → List C
  emit none out = out
  emit (some t) out = t.callback ∷ out

  -- What the takes of a history yield, and the state after it.
  pub run : List (Op C) → Sequence C → List C × Sequence C
  unfolding push_task take_task
  run [] s = ([], s)
  run (post c ∷ ops) s = run ops (push_task (new_task c) s)
  run (take now ∷ ops) s =
      let (task, s') = take_task now s in let (out, last) = run ops s' in (emit task out, last)

  abbrev pub posted : List (Op C) → List C
  posted [] = []
  posted (post c ∷ ops) = c ∷ posted ops
  posted (take now ∷ ops) = posted ops

  take_task_empty :
      (now : ℕ) (s : Sequence C) (ts : List (Task C))
      → s.inner.delayed_queue ≡ []
      → s.inner.immediate_queue ≡ ts
      → take_task now s ≡ ((pop_front s.inner ts).0, record s { inner = (pop_front s.inner ts).1 })
  unfolding flush_ready_delayed_tasks flush_loop
  take_task_empty now s ts e f =
      take_task_lem now s s.inner ts (ap (λ h. flush_loop (length h) now s.inner) e) f

  abbrev Yields : List (Op C) → Option (Task C) × Sequence C → List C → Type 0
  Yields ops (task, s) cs =
      emit task (run ops s).0 ++ callbacks (run ops s).1.inner.immediate_queue ≡ cs

  fifo :
      (ops : List (Op C)) (s : Sequence C) (ts : List (Task C))
      → s.inner.delayed_queue ≡ []
      → s.inner.immediate_queue ≡ ts
      → (run ops s).0 ++ callbacks (run ops s).1.inner.immediate_queue ≡ callbacks ts ++ posted ops
  unfolding run pop_front
  fifo [] s ts e f = ap callbacks f ∙ sym (append-nil (callbacks ts))
  fifo (post c ∷ ops) s ts e f =
      fifo ops (push_task (new_task c) s) (ts ++ numbered ∷ []) e
        (ap (λ (q : List (Task C)). q ++ numbered ∷ []) f)
      ∙ ap (λ (q : List C). q ++ posted ops) (map-append _ ts (numbered ∷ []))
      ∙ append_assoc (callbacks ts) (c ∷ []) (posted ops)
    where
      numbered : Task C
      numbered = record (new_task c) { sequence_num = s.inner.next_sequence_num }
  fifo (take now ∷ ops) s [] e f =
      subst (λ p. Yields ops p (posted ops)) (sym (take_task_empty now s [] e f))
        (fifo ops s [] e f)
  fifo (take now ∷ ops) s (t ∷ ts) e f =
      subst (λ p. Yields ops p (callbacks (t ∷ ts) ++ posted ops))
        (sym (take_task_empty now s (t ∷ ts) e f))
        (ap (◌∷◌ t.callback)
          (fifo ops (record s { inner = record s.inner { immediate_queue = ts } }) ts e refl))

  -- Between posts and takes, with no delayed task, what has been taken and what is still queued is
  -- what was queued and what was posted, in that order.
  pub run-fifo :
      (ops : List (Op C)) (s : Sequence C)
      → s.inner.delayed_queue ≡ []
      → (run ops s).0 ++ callbacks (run ops s).1.inner.immediate_queue
        ≡ callbacks s.inner.immediate_queue ++ posted ops
  run-fifo ops s e = fifo ops s s.inner.immediate_queue e refl
