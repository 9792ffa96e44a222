-- ===== src/Pool/Counting/Taken.antt =====
-- What a take moves out of a sequence is what the sequence then lacks: the flush in it counts alike.
use mathlib.Core.List.{Perm, Permᴰ}
use native.Mathlib.Nat.{ℕ_set}
use mathlib.Core.Logic.{∥∥₁_elim}
use rust_base.Base.{
  ℕ, ◌+◌, ◌≡◌, refl, sym, ap, ◌∙◌, some, none, Option, List, [], ◌∷◌, ◌++◌, map, arith, subst,
}
use rust_base.Sequence.Ready.{take_task_lem}
use rust_base.Task.{Task}
use rust_base.Sequence.{
  Entry, Sequence, SequenceInner, take_task, take_task_inner, pop_front, flush_ready_delayed_tasks,
}
use rust_base.Sequence.Flush.{Flushed, flush_ready_delayed_tasks-Flushed}
use rust_base.Pool.Callback.{Closure}
use rust_base.Pool.Counting.{closure_load, tasks_load, entries_load, queue_load}
use rust_base.Pool.Counting.Post.{tasks_load-append}

entries_load-append :
    (xs ys : List (Entry Closure)) → entries_load (xs ++ ys) ≡ entries_load xs + entries_load ys
entries_load-append [] ys = omega arith
entries_load-append (x ∷ xs) ys = omega (arith, entries_load-append xs ys)

entries_load-Permᴰ :
    {xs ys : List (Entry Closure)} → Permᴰ xs ys → entries_load xs ≡ entries_load ys
entries_load-Permᴰ Permᴰ.nil = refl
entries_load-Permᴰ (Permᴰ.cons {a = x} {b = y} e p) =
    let h = ap (λ (d : Entry Closure). closure_load d.value.task.callback) e in
    omega (arith, entries_load-Permᴰ p)
entries_load-Permᴰ (Permᴰ.swap e f) =
    let h = ap (λ (d : Entry Closure). closure_load d.value.task.callback) e in
    let k = ap (λ (d : Entry Closure). closure_load d.value.task.callback) f in omega arith
entries_load-Permᴰ (Permᴰ.trans p q) = entries_load-Permᴰ p ∙ entries_load-Permᴰ q

entries_load-Perm : {xs ys : List (Entry Closure)} → Perm xs ys → entries_load xs ≡ entries_load ys
entries_load-Perm {xs = xs} {ys = ys} p =
    ∥∥₁_elim p (ℕ_set (entries_load xs) (entries_load ys)) entries_load-Permᴰ

tasks_load-map :
    (ds : List (Entry Closure)) → tasks_load (map (λ d. d.value.task) ds) ≡ entries_load ds
tasks_load-map [] = refl
tasks_load-map (d ∷ ds) = omega (arith, tasks_load-map ds)

abbrev inner_load : SequenceInner Closure → ℕ
inner_load i = tasks_load i.immediate_queue + entries_load i.delayed_queue

Flushed-load :
    (now : ℕ) (i j : SequenceInner Closure) → Flushed now i j → inner_load j ≡ inner_load i
Flushed-load now i j f =
    let a = ap tasks_load f.appended in
    let b = entries_load-Perm f.kept in
    omega (
      arith,
      tasks_load-append i.immediate_queue (map (λ d. d.value.task) f.moved),
      tasks_load-map f.moved,
      entries_load-append f.moved j.delayed_queue,
    )

-- A take hands over what it takes out.
abbrev pub Handed : ℕ → Option (Task Closure) × Sequence Closure → Type 0
Handed n (none, q) = queue_load q ≡ n
Handed n (some t, q) = closure_load t.callback + queue_load q ≡ n

pub take_task-Handed : (now : ℕ) (q : Sequence Closure) → Handed (queue_load q) (take_task now q)
unfolding take_task take_task_inner pop_front
take_task-Handed now q = go flushed.immediate_queue refl
  where
    flushed : SequenceInner Closure
    flushed = flush_ready_delayed_tasks now q.inner

    same : inner_load flushed ≡ queue_load q
    same = Flushed-load now q.inner flushed (flush_ready_delayed_tasks-Flushed now q.inner)

    go :
        (ts : List (Task Closure))
        → flushed.immediate_queue ≡ ts
        → Handed (queue_load q) (take_task now q)
    go [] e = subst (Handed (queue_load q)) (sym (take_task_lem now q flushed [] refl e)) same
    go (t ∷ ts) e =
        let h = ap tasks_load e in
        subst (Handed (queue_load q)) (sym (take_task_lem now q flushed (t ∷ ts) refl e))
          (omega (arith, same))
