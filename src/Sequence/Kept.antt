-- ===== src/Sequence/Kept.antt =====
-- What holds of all delayed tasks of a sequence holds of those that a take leaves delayed.
use rust_base.Base.{ℕ, zero, suc, inl, inr, All, Bool-cases}
use rust_base.Base.Heap.Laws
use rust_base.Sequence.{
  Entry, SequenceInner, Sequence, delayed_ord, delayed_ready, flush_one, flush_loop,
  flush_ready_delayed_tasks, take_task, take_task_inner, pop_front,
}
use rust_base.Sequence.Flush.{round, flush_one_lem}
use rust_base.Base.{reverse_ord, List, [], ◌∷◌}
use rust_base.Task.{Task}

module _ {C : Type 0} (P : Entry C → Type 0) where
  flush_loop-All :
      (fuel now : ℕ) (i : SequenceInner C)
      → All P i.delayed_queue
      → All P (flush_loop fuel now i).delayed_queue
  unfolding flush_loop
  flush_loop-All zero now i h = h
  flush_loop-All (suc fuel) now i h = elim (Bool-cases (delayed_ready now i)) [
    | inr e ↦ rw (e, flush_loop) h
    | inl e ↦
        let r = round now i e in
        rw (e, flush_loop)
          (flush_loop-All fuel now (flush_one i)
            (rw (flush_one_lem i r.popped) (Laws.pop-All P i.delayed_queue r.popped h).1))
  ]

  pop_front-All :
      (i : SequenceInner C) (q : List (Task C))
      → All P i.delayed_queue
      → All P (pop_front i q).1.delayed_queue
  unfolding pop_front
  pop_front-All i [] h = h
  pop_front-All i (t ∷ ts) h = h

  pub take_task-All :
      (now : ℕ) (s : Sequence C)
      → All P s.inner.delayed_queue
      → All P (take_task now s).1.inner.delayed_queue
  unfolding take_task take_task_inner flush_ready_delayed_tasks
  take_task-All now s h = pop_front-All _ _ (flush_loop-All _ now s.inner h)
