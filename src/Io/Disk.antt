-- ===== src/Io/Disk.antt =====
-- The content of a file as a list of bytes, and the system calls on it that rust_io/file_proxy.rs and
-- rust_async/fs.rs make. What the system decides (an error, a short transfer) is an argument.
pub mod Laws
use rust_base.Base.{ℕ, zero, suc, ◌+◌, ◌-◌, List, [], ◌∷◌, ◌++◌, length, take, drop, min}

-- `io::Error`: an error of the system, or `ErrorKind::InvalidInput` made by the code.
pub data Error : Type 0 where
  os : ℕ → Error
  invalid_input : Error

-- `io::Result`
pub data Result (A : Type 0) : Type 0 where
  ok : A → Result A
  err : Error → Result A

-- A transfer is of the number of bytes that is given, and one more, at most: one of no byte only if
-- there is none.
pub data Transfer : Type 0 where
  limit failed : ℕ → Transfer

abbrev pub zeros : ℕ → List ℕ
zeros zero = []
zeros (suc n) = 0 ∷ zeros n

-- A write past the end leaves zeros between; one of no byte changes nothing.
unfoldable pub overwrite : ℕ → List ℕ → List ℕ → List ℕ
overwrite offset [] content = content
overwrite offset (b ∷ bytes) content =
    take offset (content ++ zeros (offset - length content))
    ++ (b ∷ bytes ++ drop (offset + length (b ∷ bytes)) content)

-- `FileExt::read_at`, into a buffer of `len` bytes.
unfoldable pub read_at : Transfer → ℕ → ℕ → List ℕ → Result (List ℕ)
read_at (failed e) offset len content = err (os e)
read_at (limit n) offset len content = ok (take (min len (suc n)) (drop offset content))

-- `FileExt::write_all_at`: a write that fails has written the first bytes.
pub data WriteAll : Type 0 where
  all : WriteAll
  failed_after : ℕ → ℕ → WriteAll

unfoldable pub write_all_at : WriteAll → ℕ → List ℕ → List ℕ → Result Unit × List ℕ
unfolding overwrite
write_all_at all offset bytes content = (ok tt, overwrite offset bytes content)
write_all_at (failed_after n e) offset bytes content =
    (err (os e), overwrite offset (take n bytes) content)
