-- ===== src/DelayedTaskManager/Deadline.antt =====
-- When the timer thread hands a sequence over, and which.
use mathlib.Core.List.{Perm}
use rust_base.Base.{
  ℕ, ◌+◌, ◌≡◌, ◌≤◌, ◌<◌, refl, true, false, some, List, [], ◌∷◌, All, All-map, le, leb, Reverse,
  reverse_ord, Bool, if◌then◌else◌, arith, inl, inr, Option-cases, Bool-cases,
}
use rust_base.Base.Heap
use rust_base.Base.Heap.Laws
use rust_base.DelayedTaskManager.{
  DelayedEntry, DelayedTaskManager, delayed_entry_ord, TimerAction, quit, wait, wait_timeout, fire,
  timer_fire, timer_at, timer_round,
}

-- What a round of the timer thread means, action by action, before and after.
abbrev pub RoundOf : ℕ → DelayedTaskManager → TimerAction × DelayedTaskManager → Type 0
RoundOf now m (quit, m') = (m.shutdown ≡ true) × (m' ≡ m)
RoundOf now m (wait, m') = (m.shutdown ≡ false) × (m.heap ≡ []) × (m' ≡ m)
RoundOf now m (wait_timeout d, m') =
    (m.shutdown ≡ false) × (0 < d) × (m' ≡ m) × All (λ e. now + d ≤ e.value.ready_time) m.heap
RoundOf now m (fire e, m') =
    (m.shutdown ≡ false)
    × (e.ready_time ≤ now)
    × Perm m.heap (record { value = e } ∷ m'.heap)
    × All (λ x. e.ready_time ≤ x.value.ready_time) m'.heap
    × (m'.shutdown ≡ false)

le-ready_time :
    (a b : Reverse DelayedEntry) → le a b ≡ true → b.value.ready_time ≤ a.value.ready_time
le-ready_time a b h = ground arith

timer_fire-RoundOf :
    (now : ℕ) (m : DelayedTaskManager) {e : Reverse DelayedEntry}
    {rest : List (Reverse DelayedEntry)}
    → m.shutdown ≡ false
    → Heap.pop m.heap ≡ some (e, rest)
    → e.value.ready_time ≤ now
    → RoundOf now m (timer_fire m)
unfolding timer_fire
timer_fire-RoundOf now m {e} {rest} live popped due =
    rw (popped, timer_fire)
      (
        live,
        due,
        Laws.pop-perm m.heap popped,
        All-map _ _ (λ x h. le-ready_time x e h) rest (Laws.pop-greatest m.heap popped),
        live,
      )

timer_at-RoundOf :
    (now : ℕ) (m : DelayedTaskManager)
    → m.shutdown ≡ false
    → RoundOf now m (timer_at now m (Heap.peek m.heap))
unfolding timer_at
timer_at-RoundOf now m live = elim (Option-cases (Heap.pop m.heap)) [
  | inl e ↦ rw (Laws.peek-eq-none m.heap e) (live, Laws.pop_empty m.heap e, refl)
  | inr ((r, rest), e) ↦
      rw (Laws.peek-eq-some m.heap e) (elim (Bool-cases (leb r.value.ready_time now)) [
        | inl due ↦ rw due (timer_fire-RoundOf now m live e (ground arith))
        | inr early ↦ rw early (
          live,
          ground arith,
          refl,
          Laws.All-pop _ m.heap e (ground arith) (
              All-map _ _ (λ x h. ground (arith, le-ready_time x r h)) rest
                (Laws.pop-greatest m.heap e)),
        )
      ])
]

-- The branch on the flag.
round_cases :
    (now : ℕ) (m : DelayedTaskManager) (b : Bool)
    → m.shutdown ≡ b
    → RoundOf now m (if b then (quit, m) else timer_at now m (Heap.peek m.heap))
round_cases now m true e = (e, refl)
round_cases now m false e = timer_at-RoundOf now m e

-- The timer thread quits when told to, waits without a deadline on an empty heap, and sleeps no
-- longer than until the earliest deadline. It hands over one sequence at a time, at or after its
-- deadline and none before one that is due earlier, and keeps all other entries.
pub timer_round-RoundOf : (now : ℕ) (m : DelayedTaskManager) → RoundOf now m (timer_round now m)
unfolding timer_round
timer_round-RoundOf now m = round_cases now m m.shutdown refl
