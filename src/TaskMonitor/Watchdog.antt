-- ===== src/TaskMonitor/Watchdog.antt =====
-- Which workers the watchdog of rust_task/task_monitor.rs reports.
use rust_base.Base.{
  ℕ, zero, suc, ◌+◌, ◌-◌, ◌<◌, ◌≤◌, ◌≡◌, ◌≢◌, refl, sym, ap, ◌∙◌, Option, none, some, List, [], ◌∷◌,
  length, ◌==◌, if◌then◌else◌, arith, inl, inr, Option-cases, Bool-cases, subst, false, leb,
}
use Prim.Native.Nat.{◌%◌, ◌^◌}
use rust_base.TaskMonitor.{
  HangInfo, TaskMonitor, to_u64, at_most_u64, at_least_one, get_elem?, store, task_started,
  task_finished, stuck, hung, scan,
}

-- What is reported of one worker.
abbrev pub report_of : ℕ → List HangInfo → Option ℕ
report_of idx [] = none
report_of idx (h ∷ hs) = if h.worker_id == idx then some h.stuck_duration else report_of idx hs

abbrev pub stuck_at : ℕ → ℕ → Option ℕ → Option ℕ
stuck_at now threshold none = none
stuck_at now threshold (some slot) = stuck now threshold slot

-- No slot before the first is reported.
report_of-before :
    (now threshold first idx : ℕ) (slots : List ℕ)
    → idx < first
    → report_of idx (hung now threshold first slots) ≡ none
unfolding hung
report_of-before now threshold first idx [] h = refl
report_of-before now threshold first idx (slot ∷ slots) h =
    elim (Option-cases (stuck now threshold slot)) [
      | inl e ↦ rw (e, hung) (report_of-before now threshold (first + 1) idx slots (omega arith))
      | inr (d, e) ↦
          rw (e, hung) (ground (arith, report_of-before now threshold (first + 1) idx slots))
    ]

report_of-hung :
    (now threshold first idx : ℕ) (slots : List ℕ)
    → report_of (first + idx) (hung now threshold first slots)
      ≡ stuck_at now threshold (get_elem? slots idx)
unfolding hung
report_of-hung now threshold first idx [] = refl
report_of-hung now threshold first zero (slot ∷ slots) =
    elim (Option-cases (stuck now threshold slot)) [
      | inl e ↦
          rw (e, hung) (report_of-before now threshold (first + 1) (first + 0) slots (omega arith))
      | inr (d, e) ↦ rw (e, hung) (ground arith)
    ]
report_of-hung now threshold first (suc idx) (slot ∷ slots) =
    let e : first + suc idx ≡ (first + 1) + idx = omega arith in
    let later =
      ap (λ k. report_of k (hung now threshold (first + 1) slots)) e
      ∙ report_of-hung now threshold (first + 1) idx slots in
    elim (Option-cases (stuck now threshold slot)) [
      | inl f ↦ rw (f, hung) later
      | inr (d, f) ↦ rw (f, hung) (ground (arith, later))
    ]

report_of-scan :
    (now idx : ℕ) (m : TaskMonitor)
    → report_of idx (scan now m)
      ≡ stuck_at (to_u64 now) (at_most_u64 m.hang_threshold) (get_elem? m.slots idx)
unfolding scan
report_of-scan now idx m =
    let e : 0 + idx ≡ idx = omega arith in
    ap (λ k. report_of k (scan now m)) (sym e)
    ∙ report_of-hung (to_u64 now) (at_most_u64 m.hang_threshold) 0 idx m.slots

-- The report that is due on a worker, by its slot: a slot is 0 when the worker is idle, and else the
-- instant at which its task started.
pub data Report (now threshold : ℕ) : Option ℕ → Option ℕ → Type 0 where
  unregistered : Report now threshold none none
  idle : Report now threshold (some 0) none
  in_time : (slot : ℕ) → 0 < slot → now - slot < threshold → Report now threshold (some slot) none
  overdue :
      (slot : ℕ)
      → 0 < slot
      → threshold ≤ now - slot
      → Report now threshold (some slot) (some (now - slot))

stuck_at-Report :
    (now threshold : ℕ) (o : Option ℕ) → Report now threshold o (stuck_at now threshold o)
unfolding stuck
stuck_at-Report now threshold none = unregistered
stuck_at-Report now threshold (some zero) = idle
stuck_at-Report now threshold (some (suc n)) =
    let busy : (suc n == 0) ≡ false = ground arith in
    elim (Bool-cases (leb threshold (now - suc n))) [
      | inl e ↦ rw (busy, e) (overdue (suc n) (omega arith) (ground arith))
      | inr e ↦ rw (busy, e) (in_time (suc n) (omega arith) (ground arith))
    ]

-- Every worker is reported exactly when its slot says that it has been in one task for the threshold or
-- longer, with that time; a worker that is idle, or has no slot, is not reported.
pub scan-Report :
    (now idx : ℕ) (m : TaskMonitor)
    → Report
        (to_u64 now)
        (at_most_u64 m.hang_threshold)
        (get_elem? m.slots idx)
        (report_of idx (scan now m))
scan-Report now idx m =
    let n = to_u64 now in
    let threshold = at_most_u64 m.hang_threshold in
    let o = get_elem? m.slots idx in
    subst (Report n threshold o) (sym (report_of-scan now idx m)) (stuck_at-Report n threshold o)

get-store : (idx v : ℕ) (xs : List ℕ) → idx < length xs → get_elem? (store idx v xs) idx ≡ some v
get-store idx v [] h = absurd (omega arith)
get-store zero v (x ∷ xs) h = refl
get-store (suc idx) v (x ∷ xs) h = get-store idx v xs (omega arith)

get-store_ne : (idx j v : ℕ) (xs : List ℕ) → idx ≢ j → get_elem? (store idx v xs) j ≡ get_elem? xs j
get-store_ne idx j v [] h = refl
get-store_ne zero zero v (x ∷ xs) h = absurd (h refl)
get-store_ne zero (suc j) v (x ∷ xs) h = refl
get-store_ne (suc idx) zero v (x ∷ xs) h = refl
get-store_ne (suc idx) (suc j) v (x ∷ xs) h = get-store_ne idx j v xs (λ e. h (ap suc e))

long_enough :
    (start now threshold : ℕ)
    → 0 < start
    → now < 2 ^ 64
    → start + threshold ≤ now
    → stuck (now % 2 ^ 64) (at_most_u64 threshold) (at_least_one (start % 2 ^ 64))
      ≡ some (now - start)
unfolding stuck at_most_u64 at_least_one
long_enough start now threshold p n d =
    let a : now % 2 ^ 64 ≡ now = omega arith in
    let b : start % 2 ^ 64 ≡ start = omega arith in rw (a, b) (ground arith)

-- A registered worker that started a task, and did not finish it, is reported when the threshold has
-- passed since the start, as long as both instants fit into 64 bits.
pub report_of-task_started :
    (start now idx : ℕ) (m : TaskMonitor)
    → idx < length m.slots
    → 0 < start
    → now < 2 ^ 64
    → start + m.hang_threshold ≤ now
    → (report_of idx (scan now (task_started start idx m)) ≡ some (now - start))
unfolding task_started to_u64 at_most_u64 at_least_one stuck
report_of-task_started start now idx m h p n d =
    report_of-scan now idx (task_started start idx m)
    ∙ ap (stuck_at (now % 2 ^ 64) (at_most_u64 m.hang_threshold))
        (get-store idx (at_least_one (start % 2 ^ 64)) m.slots h)
    ∙ long_enough start now m.hang_threshold p n d

-- A worker that finished its task is not reported, and the reports of the others stay as they were.
pub report_of-task_finished :
    (now idx j : ℕ) (m : TaskMonitor)
    → idx < length m.slots
    → idx ≢ j
    → (report_of idx (scan now (task_finished idx m)) ≡ none)
      × (report_of j (scan now (task_finished idx m)) ≡ report_of j (scan now m))
unfolding task_finished stuck
report_of-task_finished now idx j m h n = (
  report_of-scan now idx (task_finished idx m)
      ∙ ap (stuck_at (to_u64 now) (at_most_u64 m.hang_threshold)) (get-store idx 0 m.slots h),
  report_of-scan now j (task_finished idx m)
      ∙ ap (stuck_at (to_u64 now) (at_most_u64 m.hang_threshold)) (get-store_ne idx j 0 m.slots n)
      ∙ sym (report_of-scan now j m),
)
