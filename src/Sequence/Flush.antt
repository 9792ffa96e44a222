-- ===== src/Sequence/Flush.antt =====
-- `flush_ready_delayed_tasks`: the loop ends with nothing left to move, and moves the tasks that are
-- due in the order of their deadlines.
use mathlib.Core.List.{Perm}
use mathlib.Core.List.Perm
use rust_base.Base.{
  ℕ, zero, suc, ◌≤◌, ◌<◌, ◌≡◌, refl, sym, ap, ◌∙◌, subst, true, false, inl, inr, some, List, [],
  ◌∷◌, ◌++◌, map, append-nil, append_assoc, length, All, All-map, All-both, reverse_ord, le,
  Bool-cases, Option-cases, arith,
}
use rust_base.Base.Heap
use rust_base.Base.Heap.Laws
use rust_base.Sequence.{
  Entry, SequenceInner, delayed_ord, delayed_ready, flush_one, flush_loop,
  flush_ready_delayed_tasks,
}

module _ {C : Type 0} where
  -- Each entry is due no later than all that follow it.
  abbrev pub InOrder : List (Entry C) → Type 0
  InOrder [] = Unit
  InOrder (d ∷ ds) = All (λ e. le e d ≡ true) ds × InOrder ds

  pub record Flushed (now : ℕ) (before after : SequenceInner C) : Type 0 where
    pub moved : List (Entry C)
    pub appended : after.immediate_queue ≡ before.immediate_queue ++ map (λ d. d.value.task) moved
    pub kept : Perm before.delayed_queue (moved ++ after.delayed_queue)
    pub in_order : InOrder moved
    pub due : All (λ d. d.value.ready_time ≤ now) moved
    pub waiting : All (λ d. now < d.value.ready_time) after.delayed_queue
    pub numbering : after.next_sequence_num ≡ before.next_sequence_num

  record FlushedAll (P : Entry C → Type 0) (now : ℕ) (before after : SequenceInner C) : Type 0 where
    flushed : Flushed now before after
    each : All P flushed.moved

  le-ready_time : (a b : Entry C) → le a b ≡ true → b.value.ready_time ≤ a.value.ready_time
  le-ready_time a b h = ground arith

  -- The earliest entry is not due: none is.
  pub not_due :
      (now : ℕ) (inner : SequenceInner C)
      → delayed_ready now inner ≡ false
      → All (λ d. now < d.value.ready_time) inner.delayed_queue
  unfolding delayed_ready
  not_due now inner h = elim (Option-cases (Heap.pop inner.delayed_queue)) [
    | inl e ↦ rw (Laws.pop_empty inner.delayed_queue e) tt
    | inr ((m, rest), e) ↦
        let later : now < m.value.ready_time =
          ground (arith, Laws.peek-eq-some inner.delayed_queue e) in
        Laws.All-pop (λ d. now < d.value.ready_time) inner.delayed_queue e later
          (All-map _ _ (λ d k. omega (arith, le-ready_time d m k)) rest
            (Laws.pop-greatest inner.delayed_queue e))
  ]

  -- The entry that is moved by a round of the loop.
  pub record Round (now : ℕ) (inner : SequenceInner C) : Type 0 where
    pub entry : Entry C
    pub rest : List (Entry C)
    pub popped : Heap.pop inner.delayed_queue ≡ some (entry, rest)
    pub in_time : entry.value.ready_time ≤ now

  pub round : (now : ℕ) (inner : SequenceInner C) → delayed_ready now inner ≡ true → Round now inner
  unfolding delayed_ready
  round now inner h = elim (Option-cases (Heap.pop inner.delayed_queue)) [
    | inl e ↦ absurd (ground (arith, Laws.peek-eq-none inner.delayed_queue e))
    | inr ((m, rest), e) ↦ record {
      entry = m;
      rest = rest;
      popped = e;
      in_time = ground (arith, Laws.peek-eq-some inner.delayed_queue e);
    }
  ]

  pub flush_one_lem :
      (inner : SequenceInner C) {m : Entry C} {rest : List (Entry C)}
      → Heap.pop inner.delayed_queue ≡ some (m, rest)
      → flush_one inner ≡ record inner {
        immediate_queue = inner.immediate_queue ++ m.value.task ∷ [];
        delayed_queue = rest;
      }
  unfolding flush_one
  flush_one_lem inner e = rw (e, flush_one)

  All-of_empty : (P : Entry C → Type 0) (h : List (Entry C)) → length h ≤ 0 → All P h
  All-of_empty P [] e = tt
  All-of_empty P (x ∷ xs) e = absurd (omega arith)

  stop :
      (P : Entry C → Type 0) (now : ℕ) (inner : SequenceInner C)
      → All (λ d. now < d.value.ready_time) inner.delayed_queue
      → FlushedAll P now inner inner
  stop P now inner w = record {
    flushed = record {
      moved = [];
      appended = sym (append-nil inner.immediate_queue);
      kept = Perm.rfl;
      in_order = tt;
      due = tt;
      waiting = w;
      numbering = refl;
    };
    each = tt;
  }

  -- One round in front of a run of the loop.
  after-Round :
      (P : Entry C → Type 0) (now : ℕ) (inner after : SequenceInner C)
      → All P inner.delayed_queue
      → (r : Round now inner)
      → FlushedAll (λ d. P d × (le d r.entry ≡ true)) now (flush_one inner) after
      → FlushedAll P now inner after
  after-Round P now inner after h r f = record {
    flushed = record {
      moved = r.entry ∷ f.flushed.moved;
      appended =
          f.flushed.appended
          ∙ ap
              (λ (i : SequenceInner C).
                i.immediate_queue ++ map (λ d. d.value.task) f.flushed.moved)
              moved_one
          ∙ append_assoc inner.immediate_queue _ _;
      kept = Perm.trans (Laws.pop-perm inner.delayed_queue r.popped) (
          Perm.cons r.entry (
            subst
              (λ (i : SequenceInner C).
                Perm i.delayed_queue (f.flushed.moved ++ after.delayed_queue))
              moved_one f.flushed.kept));
      in_order = (All-map _ _ (λ d k. k.1) f.flushed.moved f.each, f.flushed.in_order);
      due = (r.in_time, f.flushed.due);
      waiting = f.flushed.waiting;
      numbering = f.flushed.numbering ∙ ap (λ (i : SequenceInner C). i.next_sequence_num) moved_one;
    };
    each = (
      (Laws.pop-All P inner.delayed_queue r.popped h).0,
      All-map _ _ (λ d k. k.0) f.flushed.moved f.each,
    );
  }
    where
      moved_one : flush_one inner ≡ record inner {
        immediate_queue = inner.immediate_queue ++ r.entry.value.task ∷ [];
        delayed_queue = r.rest;
      }
      moved_one = flush_one_lem inner r.popped

  flush_loop-Flushed :
      (P : Entry C → Type 0) (fuel now : ℕ) (inner : SequenceInner C)
      → length inner.delayed_queue ≤ fuel
      → All P inner.delayed_queue
      → FlushedAll P now inner (flush_loop fuel now inner)
  unfolding flush_loop
  flush_loop-Flushed P zero now inner enough h =
      stop P now inner (All-of_empty _ inner.delayed_queue enough)
  flush_loop-Flushed P (suc fuel) now inner enough h = elim (Bool-cases (delayed_ready now inner)) [
    | inr e ↦ rw (e, flush_loop) (stop P now inner (not_due now inner e))
    | inl e ↦
        let r = round now inner e in
        rw (e, flush_loop)
          (after-Round P now inner (flush_loop fuel now (flush_one inner)) h r (
            flush_loop-Flushed (λ d. P d × (le d r.entry ≡ true)) fuel now (flush_one inner)
              (fuel_left r) (each_below r)))
  ]
    where
      fuel_left : (r : Round now inner) → length (flush_one inner).delayed_queue ≤ fuel
      fuel_left r =
          rw (flush_one_lem inner r.popped)
            (omega (arith, Laws.pop-length inner.delayed_queue r.popped))

      each_below :
          (r : Round now inner)
          → All (λ d. P d × (le d r.entry ≡ true)) (flush_one inner).delayed_queue
      each_below r = rw (flush_one_lem inner r.popped) (
          All-both _ _ r.rest (Laws.pop-All P inner.delayed_queue r.popped h).1
            (Laws.pop-greatest inner.delayed_queue r.popped))

  -- A flush loses no task and keeps the numbering. The tasks that it moves go to the end of the
  -- immediate queue, by deadline and then by number; they are those whose deadline has passed.
  pub flush_ready_delayed_tasks-Flushed :
      (now : ℕ) (inner : SequenceInner C) → Flushed now inner (flush_ready_delayed_tasks now inner)
  unfolding flush_ready_delayed_tasks
  flush_ready_delayed_tasks-Flushed now inner =
      (flush_loop-Flushed (λ _. Unit) (length inner.delayed_queue) now inner (omega arith)
        (all_units inner.delayed_queue)).flushed
    where
      all_units : (h : List (Entry C)) → All (λ _. Unit {0}) h
      all_units [] = tt
      all_units (d ∷ ds) = (tt, all_units ds)
