-- ===== src/Sync/RwLock/Access.antt =====
-- What the clients of a reader-writer lock (rust_async/sync.rs) can rely on, however they interleave.
use rust_base.Base.{
  ℕ, ◌≡◌, ◌↔◌, ◌⊎◌, inl, inr, ap, sym, refl, ◌∙◌, true, false, some, List, [], ◌∷◌, length, arith,
}
use rust_base.Sync.RwLock.{start, reading, writing, exclusive, Event, run}
use rust_base.Sync.Waiters.{get}
use rust_base.Sync.RwLock.Invariant.{read_id, write_id, Sound}
use rust_base.Sync.RwLock.Step.{run-Sound, start-Sound}

length_zero : (xs : List ℕ) → length xs ≡ 0 → xs ≡ []
length_zero [] e = refl
length_zero (x ∷ xs) e = absurd (omega arith)

-- Whatever the schedule, two tasks that have a write guard are the same, and no read guard exists
-- beside it.
pub run-one_writer :
    (es : List Event) (f g : ℕ)
    → (run es start).clients f ≡ exclusive
    → (run es start).clients g ≡ exclusive
    → (f ≡ g) × ((run es start).shared ≡ [])
run-one_writer es f g e h =
    let x = run-Sound es start start-Sound in
    (
      x.guards.unique f g e h,
      length_zero (run es start).shared (sym x.guards.counted ∙ x.guards.alone (x.guards.held f e)),
    )

-- Whatever the schedule, the counter of readers is the number of read guards that exist, so that no
-- drop of one takes it below 0, and the flag is set exactly when some task has a write guard.
pub run-counted :
    (es : List Event)
    → ((run es start).inner.readers ≡ length (run es start).shared)
      × (((run es start).inner.writer ≡ true) ↔ (f : ℕ) × ((run es start).clients f ≡ exclusive))
run-counted es =
    let x = run-Sound es start start-Sound in
    (x.guards.counted, (x.guards.holder, λ (f, e). x.guards.held f e))

-- Whatever the schedule, a future of `read` that waits while no writer is active has had its task woken
-- since it was last polled.
pub run-reader_woken :
    (es : List Event) (f k : ℕ)
    → (run es start).clients f ≡ reading (some k)
    → (run es start).inner.writer ≡ false
    → (run es start).runnable f ≡ true
run-reader_woken es f k e l = go (x.parked.readers.waiting f k (ap read_id e))
  where
    x : Sound (run es start)
    x = run-Sound es start start-Sound

    go :
        (get k (run es start).inner.read_waiters.map ≡ some f) ⊎ ((run es start).runnable f ≡ true)
        → (run es start).runnable f ≡ true
    go (inl q) = let p = x.parked.no_reader l in ground arith
    go (inr q) = q

-- Whatever the schedule, a future of `write` that waits while there is no guard at all has had its task
-- woken since it was last polled.
pub run-writer_woken :
    (es : List Event) (f k : ℕ)
    → (run es start).clients f ≡ writing (some k)
    → (run es start).inner.writer ≡ false
    → (run es start).shared ≡ []
    → (run es start).runnable f ≡ true
run-writer_woken es f k e l n = go (x.parked.writers.waiting f k (ap write_id e))
  where
    x : Sound (run es start)
    x = run-Sound es start start-Sound

    go :
        (get k (run es start).inner.write_waiters.map ≡ some f) ⊎ ((run es start).runnable f ≡ true)
        → (run es start).runnable f ≡ true
    go (inl q) = let p = x.parked.no_writer l (x.guards.counted ∙ ap length n) in ground arith
    go (inr q) = q
