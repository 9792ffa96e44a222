-- ===== src/Sequence.antt =====
-- rust_task/thread_pool/sequence.rs: the tasks of one sequence. Each method runs under the mutex
-- of the sequence, so it is one function from the old state to the new one; `Instant::now()` is an
-- argument. The weak reference to the task runner is left out.
pub mod Claim
pub mod Flush
pub mod Order
pub mod Kept
pub mod Ready
use rust_base.Base.{
  ℕ, zero, suc, ◌+◌, Bool, true, false, not, ◌||◌, Option, none, some, List, [], ◌∷◌, ◌++◌, length,
  is_empty, leb, if◌then◌else◌, Ord, Reverse, reverse_ord, lex_cmp, lex_total, lex_trans, Ordering,
}
use rust_base.Base.Heap
use rust_base.Task.{Task, TaskTraits, TaskPriority}

pub data RunStatus : Type 0 where
  disallowed allowed_not_saturated allowed_saturated : RunStatus

pub record TaskSourceSortKey : Type 0 where
  pub priority : TaskPriority
  pub ready_time : ℕ

pub record DelayedTask (C : Type 0) : Type 0 where
  pub ready_time : ℕ
  pub sequence_num : ℕ
  pub task : Task C

-- An entry of the delayed queue: `Reverse` makes the max-heap yield the earliest deadline.
abbrev pub Entry : Type 0 → Type 0
Entry C = Reverse (DelayedTask C)

pub record SequenceInner (C : Type 0) : Type 0 where
  pub immediate_queue : List (Task C)
  pub delayed_queue : List (Entry C)
  pub next_sequence_num : ℕ

pub record Sequence (C : Type 0) : Type 0 where
  pub token : ℕ
  pub inner : SequenceInner C
  pub has_worker : Bool
  pub traits : TaskTraits

module _ {C : Type 0} where
  abbrev pub delayed_cmp : DelayedTask C → DelayedTask C → Ordering
  delayed_cmp a b = lex_cmp a.ready_time a.sequence_num b.ready_time b.sequence_num

  instance abbrev pub delayed_ord : Ord (DelayedTask C)
  delayed_ord = record {
    cmp = delayed_cmp;
    total = λ a b. lex_total a.ready_time a.sequence_num b.ready_time b.sequence_num;
    trans = λ a b c.
        lex_trans a.ready_time a.sequence_num b.ready_time b.sequence_num c.ready_time
          c.sequence_num;
  }

  unfoldable pub new : ℕ → TaskTraits → Sequence C
  new token traits = record {
    token = token;
    inner = record { immediate_queue = []; delayed_queue = []; next_sequence_num = 0 };
    has_worker = false;
    traits = traits;
  }

  unfoldable pub push_task_inner : Task C → SequenceInner C → SequenceInner C
  push_task_inner task inner = record inner {
    immediate_queue =
        inner.immediate_queue ++ record task { sequence_num = inner.next_sequence_num } ∷ [];
    next_sequence_num = inner.next_sequence_num + 1;
  }

  unfoldable pub push_task : Task C → Sequence C → Sequence C
  unfolding push_task_inner
  push_task task s = record s { inner = push_task_inner task s.inner }

  unfoldable pub push_delayed_task_inner : Task C → ℕ → SequenceInner C → SequenceInner C
  unfolding Heap.push
  push_delayed_task_inner task ready_time inner = record inner {
    delayed_queue = Heap.push (record { value = delayed }) inner.delayed_queue;
    next_sequence_num = inner.next_sequence_num + 1;
  }
    where
      delayed : DelayedTask C
      delayed = record {
        ready_time = ready_time;
        sequence_num = inner.next_sequence_num;
        task = record task { sequence_num = inner.next_sequence_num };
      }

  unfoldable pub push_delayed_task : Task C → ℕ → Sequence C → Sequence C
  unfolding push_delayed_task_inner
  push_delayed_task task ready_time s = record s {
    inner = push_delayed_task_inner task ready_time s.inner;
  }

  -- `peek().is_some_and(|Reverse(d)| d.ready_time <= now)`
  unfoldable pub delayed_ready : ℕ → SequenceInner C → Bool
  delayed_ready now inner = elim (Heap.peek inner.delayed_queue) [
    | none ↦ false
    | some d ↦ leb d.value.ready_time now
  ]

  -- One round of the loop below: the earliest delayed task goes to the end of the queue.
  unfoldable pub flush_one : SequenceInner C → SequenceInner C
  flush_one inner = elim (Heap.pop inner.delayed_queue) [
    | none ↦ inner
    | some (d, rest) ↦ record inner {
      immediate_queue = inner.immediate_queue ++ d.value.task ∷ [];
      delayed_queue = rest;
    }
  ]

  -- The `while let` loop, on fuel.
  unfoldable pub flush_loop : ℕ → ℕ → SequenceInner C → SequenceInner C
  flush_loop zero now inner = inner
  flush_loop (suc fuel) now inner = elim (delayed_ready now inner) [
    | true ↦ flush_loop fuel now (flush_one inner)
    | false ↦ inner
  ]

  unfoldable pub flush_ready_delayed_tasks : ℕ → SequenceInner C → SequenceInner C
  flush_ready_delayed_tasks now inner = flush_loop (length inner.delayed_queue) now inner

  unfoldable pub has_ready : ℕ → SequenceInner C → Bool
  has_ready now inner = not (is_empty inner.immediate_queue) || delayed_ready now inner

  unfoldable pub get_sort_key : ℕ → Sequence C → TaskSourceSortKey
  get_sort_key now s = record { priority = s.traits.priority; ready_time = now }

  unfoldable pub has_ready_tasks : ℕ → Sequence C → Bool
  unfolding has_ready
  has_ready_tasks now s = has_ready now s.inner

  -- `swap(true)`: the old value decides.
  unfoldable pub will_run_task : Sequence C → RunStatus × Sequence C
  will_run_task s =
      (if s.has_worker then disallowed else allowed_not_saturated, record s { has_worker = true })

  unfoldable pub pop_front : SequenceInner C → List (Task C) → Option (Task C) × SequenceInner C
  pop_front inner [] = (none, inner)
  pop_front inner (t ∷ ts) = (some t, record inner { immediate_queue = ts })

  unfoldable pub take_task_inner : ℕ → SequenceInner C → Option (Task C) × SequenceInner C
  unfolding pop_front
  take_task_inner now inner =
      let flushed = flush_ready_delayed_tasks now inner in pop_front flushed flushed.immediate_queue

  unfoldable pub take_task : ℕ → Sequence C → Option (Task C) × Sequence C
  take_task now s =
      let (task, inner) = take_task_inner now s.inner in (task, record s { inner = inner })

  -- The store to the flag, which precedes the test under the lock.
  unfoldable pub clear_worker : Sequence C → Sequence C
  clear_worker s = record s { has_worker = false }

  unfoldable pub did_process_task : ℕ → Sequence C → Bool × Sequence C
  unfolding has_ready clear_worker
  did_process_task now s = let cleared = clear_worker s in (has_ready now cleared.inner, cleared)

  unfoldable pub will_re_enqueue : ℕ → Sequence C → Bool
  unfolding has_ready_tasks
  will_re_enqueue now s = has_ready_tasks now s
