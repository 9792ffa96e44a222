-- ===== src/Sync.antt =====
-- rust_async/sync.rs: the wait set that the primitives share, and the primitives.
pub mod Waiters
pub mod Tracked
pub mod Mutex
pub mod Channel
pub mod RwLock
pub mod Barrier
pub mod Condvar
pub mod Tests

-- `std::task::Poll`
pub data Poll (A : Type 0) : Type 0 where
  ready : A → Poll A
  pending : Poll A
