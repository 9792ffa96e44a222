-- ===== src/PriorityQueue/Best.antt =====
-- Which source a worker gets.
use mathlib.Core.List.{Perm}
use rust_base.Base.{
  ℕ, ◌≡◌, true, ◌≤◌, ◌<◌, ◌⊎◌, inl, inr, refl, Option, none, some, [], ◌∷◌, All, All-map, le, arith,
  Option-cases,
}
use rust_base.Base.Heap
use rust_base.Base.Heap.Laws
use rust_base.Task.{priority_rank}
use rust_base.PriorityQueue.{QueueEntry, PriorityQueue, entry_ord, pop}

-- `e` goes before `x`, or neither goes before the other.
abbrev pub Precedes : QueueEntry → QueueEntry → Type 0
Precedes e x =
    (priority_rank x.sort_key.priority < priority_rank e.sort_key.priority)
    ⊎ ((priority_rank x.sort_key.priority ≡ priority_rank e.sort_key.priority)
        × (e.sort_key.ready_time ≤ x.sort_key.ready_time))

le-Precedes : (e x : QueueEntry) → le x e ≡ true → Precedes e x
le-Precedes e x h = ground arith

pub record Served (q : PriorityQueue) (r : Option ℕ × PriorityQueue) : Type 0 where
  pub entry : QueueEntry
  pub source : r.0 ≡ some entry.task_source
  pub kept : Perm q.heap (entry ∷ r.1.heap)
  pub first : All (Precedes entry) r.1.heap

-- A pop fails on the empty queue only. Otherwise it hands out the source of an entry of the highest
-- priority, of those one with the earliest ready time, and keeps all other entries.
pub pop-Served : (q : PriorityQueue) → ((q.heap ≡ []) × (pop q ≡ (none, q))) ⊎ Served q (pop q)
unfolding pop
pop-Served q = elim (Option-cases (Heap.pop q.heap)) [
  | inl e ↦ inl (Laws.pop_empty q.heap e, rw (e, pop))
  | inr ((m, rest), e) ↦
      rw (e, pop)
        (inr (record {
          entry = m;
          source = refl;
          kept = Laws.pop-perm q.heap e;
          first = All-map _ _ (λ x h. le-Precedes m x h) rest (Laws.pop-greatest q.heap e);
        }))
]
