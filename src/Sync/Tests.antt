-- ===== src/Sync/Tests.antt =====
-- The primitives of rust_async/sync.rs on concrete schedules of two or three tasks.
use native.Mathlib.Decide.{ℕ_discrete}
use Prim.Native.Nat.{◌*◌}
use rust_base.Base.{
  ℕ, ◌+◌, ◌≡◌, ◌≢◌, ◌<◌, refl, true, false, some, none, List, [], ◌∷◌, ◌++◌, arith,
}
use rust_base.Sync.{ready}
use rust_base.Sync.Mutex
use rust_base.Sync.Mutex.Wakeups
use rust_base.Sync.Channel
use rust_base.Sync.Channel.Invariant.{must_wait}
use rust_base.Sync.Channel.Delivery.{run-in_order}
use rust_base.Sync.RwLock
use rust_base.Sync.RwLock.Access.{run-one_writer}
use rust_base.Sync.Barrier
use rust_base.Sync.Barrier.Invariant.{before}
use rust_base.Sync.Barrier.Groups.{run-groups}

-- Task 1 has the guard, and task 2 waits for it.
abbrev one_waits : List Mutex.Event
one_waits = Mutex.lock 1 ∷ Mutex.poll 1 ∷ Mutex.lock 2 ∷ Mutex.poll 2 ∷ []

one_has : (Mutex.run one_waits Mutex.start).clients 1 ≡ Mutex.holding
unfolding Mutex.run Mutex.start ℕ_discrete
one_has = refl

abbrev released : List Mutex.Event
released = one_waits ++ Mutex.release 1 ∷ []

two_waits : (Mutex.run released Mutex.start).clients 2 ≡ Mutex.locking (some 0)
unfolding Mutex.run Mutex.start ℕ_discrete
two_waits = refl

is_free : (Mutex.run released Mutex.start).inner.locked ≡ false
unfolding Mutex.run Mutex.start ℕ_discrete
is_free = refl

run-woken_example : (Mutex.run released Mutex.start).runnable 2 ≡ true
run-woken_example = Wakeups.run-woken released 2 0 two_waits is_free

-- A value for a receiver that waits.
abbrev one_sent : List (Channel.Event ℕ)
one_sent = Channel.recv 4 ∷ Channel.poll 4 ∷ Channel.send 9 ∷ []

run-in_order_example :
    (Channel.run one_sent Channel.start).received
      ++ (Channel.run one_sent Channel.start).inner.items
    ≡ (Channel.run one_sent Channel.start).sent
run-in_order_example = run-in_order one_sent

four_waits : (Channel.run one_sent Channel.start).clients 4 ≡ Channel.receiving (some 0)
unfolding Channel.run Channel.start ℕ_discrete
four_waits = refl

has_value : must_wait (Channel.run one_sent Channel.start).inner ≡ false
unfolding Channel.run Channel.start ℕ_discrete
has_value = refl

abbrev all_read : List (Channel.Event ℕ)
all_read = one_sent ++ Channel.poll 4 ∷ Channel.drop_sender ∷ []

is_closed :
    (Channel.recv_poll none 5 (Channel.run all_read Channel.start).inner).0 ≡ ready Channel.closed
unfolding Channel.run Channel.start ℕ_discrete
is_closed = refl

-- A writer holds the lock.
abbrev one_writes : List RwLock.Event
one_writes =
    RwLock.write 1
    ∷ RwLock.poll 1
    ∷ RwLock.read 2
    ∷ RwLock.poll 2
    ∷ RwLock.write 3
    ∷ RwLock.poll 3
    ∷ []

one_writer : (RwLock.run one_writes RwLock.start).clients 1 ≡ RwLock.exclusive
unfolding RwLock.run RwLock.start ℕ_discrete
one_writer = refl

run-one_writer_example : (◌≡◌ {A = ℕ} 1 1) × ((RwLock.run one_writes RwLock.start).shared ≡ [])
run-one_writer_example = run-one_writer one_writes 1 1 one_writer one_writer

abbrev all_free : List RwLock.Event
all_free = one_writes ++ RwLock.drop_write_guard 1 ∷ []

two_reads : (RwLock.run all_free RwLock.start).clients 2 ≡ RwLock.reading (some 0)
unfolding RwLock.run RwLock.start ℕ_discrete
two_reads = refl

three_writes : (RwLock.run all_free RwLock.start).clients 3 ≡ RwLock.writing (some 0)
unfolding RwLock.run RwLock.start ℕ_discrete
three_writes = refl

no_writer : (RwLock.run all_free RwLock.start).inner.writer ≡ false
unfolding RwLock.run RwLock.start ℕ_discrete
no_writer = refl

no_reader : (RwLock.run all_free RwLock.start).shared ≡ []
unfolding RwLock.run RwLock.start ℕ_discrete
no_reader = refl

-- Two of two participants arrive.
abbrev both : List Barrier.Event
both = Barrier.enter 1 ∷ Barrier.poll 1 ∷ Barrier.enter 2 ∷ Barrier.poll 2 ∷ []

run-groups_example :
    ((Barrier.run 2 both Barrier.start).joined
      ≡ (Barrier.run 2 both Barrier.start).inner.generation * 2
        + (Barrier.run 2 both Barrier.start).inner.count)
    × ((Barrier.run 2 both Barrier.start).inner.count < 2)
    × ((Barrier.run 2 both Barrier.start).led
        ≡ before (Barrier.run 2 both Barrier.start).inner.generation)
run-groups_example = run-groups 2 both (omega arith)

first_waits : (Barrier.run 2 both Barrier.start).clients 1 ≡ Barrier.waiting (some 0) (some 0)
unfolding Barrier.run Barrier.start ℕ_discrete
first_waits = refl

one_complete : (Barrier.run 2 both Barrier.start).inner.generation ≡ 1
unfolding Barrier.run Barrier.start ℕ_discrete
one_complete = refl

next_generation : ◌≢◌ {A = ℕ} 0 (Barrier.run 2 both Barrier.start).inner.generation
next_generation = λ e. omega (arith, one_complete)
