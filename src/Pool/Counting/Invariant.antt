-- ===== src/Pool/Counting/Invariant.antt =====
-- The count of the tracker as the sum over the sequences of what they hold and of what their owners
-- have under way.
use rust_base.Base.{
  ℕ, ◌+◌, ◌≤◌, ◌<◌, ◌≡◌, ◌≢◌, sym, ap, ◌∙◌, Bool, true, false, some, List, [], update, sum,
  sum_next, sum_same, sum_change, arith,
}
use native.Mathlib.Decide.{ℕ_discrete}
use rust_base.TaskTracker.{TaskTracker}
use rust_base.Pool.Callback.{Instr}
use rust_base.Pool.{
  Pc, running, panicked, Phase, not_called, waiting, drained, joining, stopped, System,
}
use rust_base.Pool.Exclusion.{flag_of, owner_of}
use rust_base.Pool.Counting.{queue_load, load, Formed}

abbrev pub todo_of : Pc → List Instr
todo_of (running t todo) = todo
todo_of _ = []

-- Whether `TaskTracker::shutdown` has returned.
abbrev pub past_wait : Phase → Bool
past_wait not_called = false
past_wait waiting = false
past_wait _ = true

pub record Counted (s : System) : Type 0 where
  pub under_way : ℕ → ℕ  -- what the owner of each sequence has still to give back
  pub hand : (i t : ℕ) → owner_of s i ≡ some t → under_way t ≡ load (todo_of (s.workers i))
  pub free : (t : ℕ) → flag_of s t ≡ false → under_way t ≡ 0
  pub formed : (i : ℕ) → Formed (todo_of (s.workers i))
  pub total :
      s.tracker.num_tasks_blocking_shutdown
      ≡ sum s.next_token (λ t. queue_load (s.sequences t) + under_way t)
  pub calm : (i t : ℕ) → s.workers i ≢ panicked t
  pub started : s.phase ≢ not_called → s.tracker.shutdown_started ≡ true
  pub waited : past_wait s.phase ≡ true → s.tracker.num_tasks_blocking_shutdown ≡ 0

module _ {s : System} (x : Counted s) (s' : System) where
  -- A step that moves no task to or from a callback.
  pub still-Counted :
      ((i t : ℕ) → owner_of s' i ≡ some t → x.under_way t ≡ load (todo_of (s'.workers i)))
      → ((t : ℕ) → flag_of s' t ≡ false → x.under_way t ≡ 0)
      → ((i : ℕ) → Formed (todo_of (s'.workers i)))
      → ((i t : ℕ) → s'.workers i ≢ panicked t)
      → s'.next_token ≡ s.next_token
      → s'.tracker ≡ s.tracker
      → s'.phase ≡ s.phase
      → ((t : ℕ) → queue_load (s'.sequences t) ≡ queue_load (s.sequences t))
      → Counted s'
  still-Counted h f w c n k p q = record {
    under_way = x.under_way;
    hand = h;
    free = f;
    formed = w;
    total =
        ap (λ (t : TaskTracker). t.num_tasks_blocking_shutdown) k
        ∙ x.total
        ∙ sum_same s.next_token _ _ (λ t l. omega (arith, q t))
        ∙ ap (λ m. sum m (λ t. queue_load (s'.sequences t) + x.under_way t)) (sym n);
    calm = c;
    started = λ e. ap (λ (t : TaskTracker). t.shutdown_started) k ∙ x.started (λ g. e (p ∙ g));
    waited = λ e.
        ap (λ (t : TaskTracker). t.num_tasks_blocking_shutdown) k
        ∙ x.waited (sym (ap past_wait p) ∙ e);
  }

  -- The owner of a sequence takes a task out of it, or comes to the end of one.
  pub move-Counted :
      (t r : ℕ)
      → t < s.next_token
      → ((i u : ℕ)
          → owner_of s' i ≡ some u
          → update x.under_way t r u ≡ load (todo_of (s'.workers i)))
      → flag_of s' t ≡ true
      → ((u : ℕ) → t ≢ u → flag_of s' u ≡ flag_of s u)
      → ((i : ℕ) → Formed (todo_of (s'.workers i)))
      → ((i t : ℕ) → s'.workers i ≢ panicked t)
      → s'.next_token ≡ s.next_token
      → s'.tracker.shutdown_started ≡ s.tracker.shutdown_started
      → s'.tracker.num_tasks_blocking_shutdown + (queue_load (s.sequences t) + x.under_way t)
        ≡ s.tracker.num_tasks_blocking_shutdown + (queue_load (s'.sequences t) + r)
      → s'.tracker.num_tasks_blocking_shutdown ≤ s.tracker.num_tasks_blocking_shutdown
      → s'.phase ≡ s.phase
      → ((u : ℕ) → t ≢ u → s'.sequences u ≡ s.sequences u)
      → Counted s'
  move-Counted t r l h f g w c n k b d p q = record {
    under_way = update x.under_way t r;
    hand = h;
    free = λ u e. elim (ℕ_discrete t u) [
      | yes same ↦ absurd (ground arith)
      | no other ↦ ground (arith, x.free u, g u)
    ];
    formed = w;
    total = rw n (total_after (x.total));
    calm = c;
    started = λ e. k ∙ x.started (λ g. e (p ∙ g));
    waited = λ e. let z = x.waited (sym (ap past_wait p) ∙ e) in omega arith;
  }
    where
      at_t :
          queue_load (s'.sequences t) + update x.under_way t r t ≡ queue_load (s'.sequences t) + r
      at_t = ground arith

      elsewhere :
          (u : ℕ)
          → t ≢ u
          → queue_load (s.sequences u) + x.under_way u
            ≡ queue_load (s'.sequences u) + update x.under_way t r u
      elsewhere u other =
          let e = ap queue_load (q u other) in
          let e' : update x.under_way t r u ≡ x.under_way u = ground arith in omega arith

      total_after :
          s.tracker.num_tasks_blocking_shutdown
            ≡ sum s.next_token (λ t. queue_load (s.sequences t) + x.under_way t)
          → s'.tracker.num_tasks_blocking_shutdown
            ≡ sum s.next_token (λ u. queue_load (s'.sequences u) + update x.under_way t r u)
      total_after e =
          let change =
            sum_change s.next_token (λ u. queue_load (s.sequences u) + x.under_way u)
              (λ u. queue_load (s'.sequences u) + update x.under_way t r u) t l elsewhere in
          omega (arith, at_t)

  -- A new sequence, with what it holds.
  pub new-Counted :
      x.under_way s.next_token ≡ 0
      → s'.next_token ≡ s.next_token + 1
      → s'.workers ≡ s.workers
      → ((u : ℕ) → flag_of s' u ≡ false → x.under_way u ≡ 0)
      → s'.phase ≡ s.phase
      → s'.tracker.shutdown_started ≡ s.tracker.shutdown_started
      → s'.tracker.num_tasks_blocking_shutdown
        ≡ s.tracker.num_tasks_blocking_shutdown + queue_load (s'.sequences s.next_token)
      → (s.tracker.shutdown_started ≡ true → queue_load (s'.sequences s.next_token) ≡ 0)
      → ((u : ℕ) → s.next_token ≢ u → s'.sequences u ≡ s.sequences u)
      → Counted s'
  new-Counted z n w f p k c blocked q = record {
    under_way = x.under_way;
    hand = λ i t. rw w (x.hand i t);
    free = f;
    formed = λ i. rw w (x.formed i);
    total = rw n (total_after x.total);
    calm = λ i t. rw w (x.calm i t);
    started = λ e. k ∙ x.started (λ g. e (p ∙ g));
    waited = λ e.
        let past = sym (ap past_wait p) ∙ e in
        let none_left = x.waited past in
        let no_new = blocked (x.started (past_called s.phase past)) in omega arith;
  }
    where
      past_called : (g : Phase) → past_wait g ≡ true → g ≢ not_called
      past_called not_called e = absurd cc
      past_called waiting e = λ h. cc
      past_called drained e = λ h. cc
      past_called joining e = λ h. cc
      past_called stopped e = λ h. cc

      same :
          (u : ℕ)
          → u < s.next_token
          → queue_load (s.sequences u) + x.under_way u ≡ queue_load (s'.sequences u) + x.under_way u
      same u l = let e = ap queue_load (q u (λ h. omega arith)) in omega arith

      total_after :
          s.tracker.num_tasks_blocking_shutdown
            ≡ sum s.next_token (λ t. queue_load (s.sequences t) + x.under_way t)
          → s'.tracker.num_tasks_blocking_shutdown
            ≡ sum (s.next_token + 1) (λ u. queue_load (s'.sequences u) + x.under_way u)
      total_after e =
          let before =
            sum_same s.next_token (λ u. queue_load (s.sequences u) + x.under_way u)
              (λ u. queue_load (s'.sequences u) + x.under_way u) same in
          let after = sum_next s.next_token (λ u. queue_load (s'.sequences u) + x.under_way u) in
          omega arith
