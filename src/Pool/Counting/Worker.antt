-- ===== src/Pool/Counting/Worker.antt =====
-- A worker keeps the count: what it takes out of a sequence it has under way, and gives back at the end.
use rust_base.Base.{
  ℕ, zero, suc, ◌+◌, ◌<◌, ◌≡◌, ◌≢◌, refl, sym, ap, ◌∙◌, Bool, true, false, some, none, Option, List,
  [], ◌∷◌, update, update_self, update-ne, sum_at, arith, subst,
}
use native.Mathlib.Decide.{ℕ_discrete}
use rust_base.Task.{Task, TaskTraits, is_block_shutdown}
use rust_base.TaskTracker.{after_run_task}
use rust_base.Sequence.{Sequence}
use rust_base.Pool.Callback.{Closure, Instr, after, steps}
use rust_base.Pool.Worker.{start_task, finish_guarded}
use rust_base.Pool.{Pc, running, finished, panicked, System, set_worker, set_sequence}
use rust_base.Pool.InRange.{token_of}
use rust_base.Pool.Exclusion.{owns, IsExclusive, flag_of, owner_of}
use rust_base.Pool.Counting.{queue_load, load, Formed, steps-load, steps-Formed}
use rust_base.Pool.Counting.Invariant.{Counted, todo_of, still-Counted, move-Counted}
use rust_base.Pool.Counting.Taken.{Handed}

owns-token_of : (pc : Pc) (t : ℕ) → owns pc ≡ some t → token_of pc ≡ some t
owns-token_of pc t e = ground arith

module _ (s : System) (x : Counted s) (i : ℕ) where
  -- A worker goes on, with nothing handed over.
  pub stay-Counted :
      (pc : Pc)
      → ((u : ℕ) → owns pc ≡ some u → x.under_way u ≡ load (todo_of pc))
      → Formed (todo_of pc)
      → ((u : ℕ) → pc ≢ panicked u)
      → Counted (set_worker i pc s)
  unfolding set_worker
  stay-Counted pc h f c =
      still-Counted x _ (λ j u p. after_update j u p) x.free
        (λ j. elim (ℕ_discrete i j) [
          | yes same ↦
              subst (λ k. Formed (todo_of (update s.workers i pc k))) same
                (rw (update_self s.workers i pc) f)
          | no other ↦ rw (update-ne s.workers i j pc other) (x.formed j)
        ])
        (λ j u. elim (ℕ_discrete i j) [
          | yes same ↦
              subst (λ k. update s.workers i pc k ≢ panicked u) same
                (rw (update_self s.workers i pc) (c u))
          | no other ↦ rw (update-ne s.workers i j pc other) (x.calm j u)
        ])
        refl refl refl (λ t. refl)
    where
      after_update :
          (j u : ℕ)
          → owns (update s.workers i pc j) ≡ some u
          → x.under_way u ≡ load (todo_of (update s.workers i pc j))
      after_update j u p = elim (ℕ_discrete i j) [
        | yes same ↦
            subst (λ k. x.under_way u ≡ load (todo_of (update s.workers i pc k))) same
              (rw (update_self s.workers i pc) (
                h u (
                  ap owns (sym (update_self s.workers i pc) ∙ ap (update s.workers i pc) same)
                  ∙ p)))
        | no other ↦
            rw (update-ne s.workers i j pc other)
              (x.hand j u (ap owns (sym (update-ne s.workers i j pc other)) ∙ p))
      ]

  module _ (e : IsExclusive s) (t : ℕ) (owned : owner_of s i ≡ some t) where
    in_range : t < s.next_token
    in_range = e.range.held i t (owns-token_of (s.workers i) t owned)

    -- The load in the hands of the owner after a step that hands something over.
    hand_over :
        (pc : Pc)
        → owns pc ≡ some t
        → (j u : ℕ) → owns (update s.workers i pc j) ≡ some u
        → update x.under_way t (load (todo_of pc)) u ≡ load (todo_of (update s.workers i pc j))
    hand_over pc o j u p = elim (ℕ_discrete i j) [
      | yes same ↦ ground arith
      | no other ↦ ground (arith, x.hand j u, e.exclusion.unique i j t)
    ]

    Formed-over :
        (pc : Pc) → Formed (todo_of pc) → (j : ℕ) → Formed (todo_of (update s.workers i pc j))
    Formed-over pc f j = elim (ℕ_discrete i j) [
      | yes same ↦
          subst (λ k. Formed (todo_of (update s.workers i pc k))) same
            (rw (update_self s.workers i pc) f)
      | no other ↦ rw (update-ne s.workers i j pc other) (x.formed j)
    ]

    calm_over :
        (pc : Pc) → ((u : ℕ) → pc ≢ panicked u) → (j u : ℕ) → update s.workers i pc j ≢ panicked u
    calm_over pc c j u = elim (ℕ_discrete i j) [
      | yes same ↦
          subst (λ k. update s.workers i pc k ≢ panicked u) same
            (rw (update_self s.workers i pc) (c u))
      | no other ↦ rw (update-ne s.workers i j pc other) (x.calm j u)
    ]

    pub start_task-Counted :
        (r : Option (Task Closure) × Sequence Closure)
        → todo_of (s.workers i) ≡ []
        → r.1.has_worker ≡ flag_of s t
        → Handed (queue_load (s.sequences t)) r
        → Counted (start_task i t s r)
    unfolding start_task set_worker set_sequence
    start_task-Counted (none, q) d f h =
        move-Counted x _ t 0 in_range (hand_over (finished t) refl)
          (ground (arith, e.exclusion.owned i t)) (λ u n. ground arith)
          (Formed-over (finished t) tt) (calm_over (finished t) (λ u p. cc)) refl refl
          (let z = x.hand i t owned in
            let l = ap load d in let k = ap queue_load (update_self s.sequences t q) in omega arith)
          (omega arith) refl (λ u n. update-ne s.sequences t u q n)
    start_task-Counted (some task, q) d f h =
        move-Counted x _ t (load (steps task.callback)) in_range
          (hand_over (running t (steps task.callback)) refl) (ground (arith, e.exclusion.owned i t))
          (λ u n. ground arith)
          (Formed-over (running t (steps task.callback)) (steps-Formed task.callback))
          (calm_over (running t (steps task.callback)) (λ u p. cc)) refl refl
          (let z = x.hand i t owned in
            let l = ap load d in
            let k = ap queue_load (update_self s.sequences t q) in
            omega (arith, steps-load task.callback))
          (omega arith) refl (λ u n. update-ne s.sequences t u q n)

    -- The end of a callback gives back what it was counted for; the count is never 0 before that.
    pub after-Counted :
        (traits : TaskTraits) (rest : List Instr) (b : Bool)
        → is_block_shutdown traits.shutdown_behavior ≡ b
        → todo_of (s.workers i) ≡ after traits ∷ rest
        → (n : ℕ) → s.tracker.num_tasks_blocking_shutdown ≡ n
        → Counted (finish_guarded i t rest s (after_run_task traits s.tracker))
    unfolding finish_guarded set_worker after_run_task
    after-Counted traits rest false k d n c =
        rw (k, after_run_task, finish_guarded)
          (stay-Counted (running t rest)
            (λ u p. let z = x.hand i t owned in let l = ap load d in ground arith)
            (subst Formed d (x.formed i)) (λ u p. cc))
    after-Counted traits rest true k d zero c =
        let z = x.hand i t owned in
        let l = ap load d in
        let m = sum_at s.next_token (λ v. queue_load (s.sequences v) + x.under_way v) t in_range in
        absurd (ground (arith, x.total))
    after-Counted traits rest true k d (suc n) c =
        rw (k, c, after_run_task, finish_guarded)
          (move-Counted x _ t (load rest) in_range (hand_over (running t rest) refl)
            (e.exclusion.owned i t owned) (λ u n. refl)
            (Formed-over (running t rest) (subst Formed d (x.formed i)))
            (calm_over (running t rest) (λ u p. cc)) refl refl
            (let z = x.hand i t owned in let l = ap load d in ground arith) (omega arith) refl
            (λ u n. refl))
