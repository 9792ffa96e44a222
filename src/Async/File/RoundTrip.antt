-- ===== src/Async/File/RoundTrip.antt =====
-- What a file of rust_async/fs.rs has written it reads.
use rust_base.Async.File.{File}
use rust_base.Async.File.Writing.{Writing}
