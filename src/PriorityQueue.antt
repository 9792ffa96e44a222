-- ===== src/PriorityQueue.antt =====
-- rust_task/thread_pool/priority_queue.rs: the sources that wait for a worker. A source is named by
-- the token of its sequence.
pub mod Best
use rust_base.Base.{
  ℕ, Bool, Option, none, some, List, [], ◌∷◌, is_empty as is_empty_list, Ord, Ordering, lex_cmp,
  lex_total, at_most, ◌≡◌, true, arith,
}
use rust_base.Base.Heap
use rust_base.Task.{priority_rank}
use rust_base.Sequence.{TaskSourceSortKey}

pub record QueueEntry : Type 0 where
  pub sort_key : TaskSourceSortKey
  pub task_source : ℕ

-- By priority, and by the ready time backwards.
abbrev pub entry_cmp : QueueEntry → QueueEntry → Ordering
entry_cmp a b =
    lex_cmp (priority_rank a.sort_key.priority) b.sort_key.ready_time
      (priority_rank b.sort_key.priority) a.sort_key.ready_time

pub later_trans :
    (p a q b r c : ℕ)
    → at_most (lex_cmp p b q a) ≡ true
    → at_most (lex_cmp q c r b) ≡ true
    → at_most (lex_cmp p c r a) ≡ true
later_trans p a q b r c h k = ground arith

instance abbrev pub entry_ord : Ord QueueEntry
entry_ord = record {
  cmp = entry_cmp;
  total = λ a b.
      lex_total (priority_rank a.sort_key.priority) b.sort_key.ready_time
        (priority_rank b.sort_key.priority) a.sort_key.ready_time;
  trans = λ a b c.
      later_trans (priority_rank a.sort_key.priority) a.sort_key.ready_time
        (priority_rank b.sort_key.priority) b.sort_key.ready_time
        (priority_rank c.sort_key.priority) c.sort_key.ready_time;
}

pub record PriorityQueue : Type 0 where
  pub heap : List QueueEntry

unfoldable pub new : PriorityQueue
new = record { heap = [] }

unfoldable pub push : TaskSourceSortKey → ℕ → PriorityQueue → PriorityQueue
unfolding Heap.push
push sort_key task_source q = record {
  heap = Heap.push (record { sort_key = sort_key; task_source = task_source }) q.heap;
}

unfoldable pub pop : PriorityQueue → Option ℕ × PriorityQueue
unfolding Heap.pop
pop q = elim (Heap.pop q.heap) [
  | none ↦ (none, q)
  | some (e, rest) ↦ (some e.task_source, record { heap = rest })
]

unfoldable pub is_empty : PriorityQueue → Bool
is_empty q = is_empty_list q.heap
