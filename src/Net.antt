-- ===== src/Net.antt =====
-- The crate rust_net: sockets whose operations end in a callback on the IO thread.
pub mod Socket
pub mod Tcp
use rust_base.Base.{ℕ}

-- The errors of system calls that the code tells apart, and the other ones by their number.
pub data Errno : Type 0 where
  eagain einprogress : Errno
  other : ℕ → Errno

-- `io::Error`: an error of the system, or `ErrorKind::TimedOut` made by the code.
pub data Error : Type 0 where
  os : Errno → Error
  timed_out : Error

-- `io::Result`
pub data Result (A : Type 0) : Type 0 where
  ok : A → Result A
  err : Error → Result A
