-- ===== src/ThreadGroup/Popped.antt =====
-- What a worker takes out of the shared queue, and what stays in it.
use rust_base.Base.{◌≡◌, refl, true, false, inl, inr, Bool, All, Option-cases, if◌then◌else◌}
use rust_base.Base.Heap
use rust_base.Base.Heap.Laws
use rust_base.PriorityQueue
use rust_base.PriorityQueue.{QueueEntry, PriorityQueue, entry_ord}
use rust_base.ThreadGroup.{ThreadGroup, Work, leave, run, work_of, get_work}

module _ (P : QueueEntry → Type 0) where
  -- If `P` holds of all entries, it holds of those that are left, and of the one that was taken.
  abbrev pub Kept : Work × ThreadGroup → Type 0
  Kept (run t, g) = ((e : QueueEntry) × (e.task_source ≡ t) × P e) × All P g.priority_queue.heap
  Kept (_, g) = All P g.priority_queue.heap

  work_of-Kept :
      (g : ThreadGroup)
      → All P g.priority_queue.heap
      → Kept (work_of g (PriorityQueue.pop g.priority_queue))
  unfolding work_of PriorityQueue.pop
  work_of-Kept g h = elim (Option-cases (Heap.pop g.priority_queue.heap)) [
    | inl e ↦ rw (e, PriorityQueue.pop) h
    | inr ((m, rest), e) ↦
        let (hm, hr) = Laws.pop-All P g.priority_queue.heap e h in
        rw (e, PriorityQueue.pop) ((m, refl, hm), hr)
  ]

  pub get_work-Kept : (g : ThreadGroup) → All P g.priority_queue.heap → Kept (get_work g)
  unfolding get_work
  get_work-Kept g h = go g.shutdown
    where
      go :
          (b : Bool)
          → Kept (if b then (leave, g) else work_of g (PriorityQueue.pop g.priority_queue))
      go true = h
      go false = work_of-Kept g h

  -- The other way round: what holds of the entries that are left and of the one that was taken
  -- holds of all.
  abbrev pub Restored : ThreadGroup → Work × ThreadGroup → Type 0
  Restored g (run t, g') =
      ((e : QueueEntry) → e.task_source ≡ t → P e)
      → All P g'.priority_queue.heap
      → All P g.priority_queue.heap
  Restored g (_, g') = g' ≡ g

  work_of-Restored : (g : ThreadGroup) → Restored g (work_of g (PriorityQueue.pop g.priority_queue))
  unfolding work_of PriorityQueue.pop
  work_of-Restored g = elim (Option-cases (Heap.pop g.priority_queue.heap)) [
    | inl e ↦ rw (e, PriorityQueue.pop) refl
    | inr ((m, rest), e) ↦
        rw (e, PriorityQueue.pop)
          (λ one others. Laws.All-pop P g.priority_queue.heap e (one m refl) others)
  ]

  pub get_work-Restored : (g : ThreadGroup) → Restored g (get_work g)
  unfolding get_work
  get_work-Restored g = go g.shutdown
    where
      go :
          (b : Bool)
          → Restored g (if b then (leave, g) else work_of g (PriorityQueue.pop g.priority_queue))
      go true = refl
      go false = work_of-Restored g
