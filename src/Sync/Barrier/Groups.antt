-- ===== src/Sync/Barrier/Groups.antt =====
-- What the participants of a barrier (rust_async/sync.rs) can rely on, however they interleave.
use rust_base.Base.{ℕ, ◌+◌, ◌≡◌, ◌≢◌, ◌<◌, List, Option, some, ap, true}
use Prim.Native.Nat.{◌*◌}
use rust_base.Sync.Barrier.{start, waiting, Event, run}
use rust_base.Sync.Barrier.Invariant.{before, arrived, run-Sound, start-Sound}

-- Whatever the schedule, a barrier of `n` > 0 participants completes a generation at every `n`-th
-- arrival, dropped futures counted, and always has room for one more in the current one; and exactly
-- one participant of each completed generation was told that it is the leader.
pub run-groups :
    (n : ℕ) (es : List Event)
    → 0 < n
    → ((run n es start).joined
        ≡ (run n es start).inner.generation * n + (run n es start).inner.count)
      × ((run n es start).inner.count < n)
      × ((run n es start).led ≡ before (run n es start).inner.generation)
run-groups n es h = let x = run-Sound n es start (start-Sound n h) in (x.counted, x.room, x.leaders)

-- Whatever the schedule, a future that has joined a generation that is complete has had its task woken
-- since it was last polled.
pub run-released :
    (n : ℕ) (es : List Event) (f g : ℕ) (id : Option ℕ)
    → 0 < n
    → (run n es start).clients f ≡ waiting (some g) id
    → g ≢ (run n es start).inner.generation
    → (run n es start).runnable f ≡ true
run-released n es f g id h e k =
    (run-Sound n es start (start-Sound n h)).released f g (ap arrived e) k
