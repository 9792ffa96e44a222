-- ===== src/Async.antt =====
-- The crate rust_async under its locks and streams: the reactor, the futures that wait for another
-- thread, and files.
pub mod Reactor
pub mod Job
pub mod Loop
pub mod File
pub mod Tasks
pub mod BlockOn
pub mod Stdio
pub mod Net
pub mod Local
