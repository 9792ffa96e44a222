-- ===== src/DelayedTaskManager/Fired.antt =====
-- What the timer thread takes out of its heap, and what stays in it.
use rust_base.Base.{
  ℕ, true, false, Bool, Option, none, some, inl, inr, All, Reverse, reverse_ord, Option-cases,
  Bool-cases, if◌then◌else◌, leb,
}
use rust_base.Base.Heap
use rust_base.Base.Heap.Laws
use rust_base.DelayedTaskManager.{
  DelayedEntry, DelayedTaskManager, delayed_entry_ord, TimerAction, quit, fire, timer_fire,
  timer_at, timer_round,
}

module _ (P : Reverse DelayedEntry → Type 0) where
  -- What holds of all entries holds of the one that is fired and of those that are left, and back.
  abbrev pub Split : DelayedTaskManager → TimerAction × DelayedTaskManager → Type 0
  Split m (fire e, m') =
      (All P m.heap → P (record { value = e }) × All P m'.heap)
      × (P (record { value = e }) → All P m'.heap → All P m.heap)
  Split m (_, m') = Unit

  timer_fire-Split : (m : DelayedTaskManager) → Split m (timer_fire m)
  unfolding timer_fire
  timer_fire-Split m = elim (Option-cases (Heap.pop m.heap)) [
    | inl e ↦ rw (e, timer_fire) tt
    | inr ((x, rest), e) ↦ rw (e, timer_fire) (Laws.pop-All P m.heap e, Laws.All-pop P m.heap e)
  ]

  timer_at-Split :
      (now : ℕ) (m : DelayedTaskManager) (o : Option (Reverse DelayedEntry))
      → Split m (timer_at now m o)
  unfolding timer_at
  timer_at-Split now m none = tt
  timer_at-Split now m (some e) = elim (Bool-cases (leb e.value.ready_time now)) [
    | inl h ↦ rw h (timer_fire-Split m)
    | inr h ↦ rw h tt
  ]

  pub timer_round-Split : (now : ℕ) (m : DelayedTaskManager) → Split m (timer_round now m)
  unfolding timer_round
  timer_round-Split now m = go m.shutdown
    where
      go : (b : Bool) → Split m (if b then (quit, m) else timer_at now m (Heap.peek m.heap))
      go true = tt
      go false = timer_at-Split now m (Heap.peek m.heap)
