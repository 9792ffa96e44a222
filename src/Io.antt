-- ===== src/Io.antt =====
-- The crate rust_io: the event loop over file descriptors, the task runner of the IO thread, and files.
pub mod Pump
pub mod Controller
pub mod Runner
pub mod Disk
pub mod FileProxy
