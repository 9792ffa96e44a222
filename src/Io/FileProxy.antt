-- ===== src/Io/FileProxy.antt =====
-- `FileProxy` of rust_io/file_proxy.rs, on a runner that may refuse a closure and runs those that it took
-- in any order, each as one step, and an IO runner that may refuse a reply and runs those that it took in
-- their order. A path names a file or nothing, a callback is a number, and what the system does with a
-- call is an argument.
pub mod Spec
pub mod Places
pub mod History
mod Tests
use rust_base.Base.{
  ℕ, suc, ◌+◌, Bool, Option, none, some, List, [], ◌∷◌, ◌++◌, length, take, drop, min,
  if◌then◌else◌,
}
use rust_base.Pool.Schedule.{extract}
use rust_base.Io.Disk.{Error, os, invalid_input, Result, ok, err, overwrite}

-- An operation, with its callback.
pub data Op : Type 0 where
  read : ℕ → ℕ → Op
  read_all : Op
  write : ℕ → List ℕ → Op
  write_all append : List ℕ → Op

-- What the callback gets.
pub data Reply : Type 0 where
  bytes : Result (List ℕ) → Reply
  count : Result ℕ → Reply
  unit : Result Unit → Reply

-- The path has a null byte; the file cannot be opened; the transfer stops after some bytes, or fails
-- with an error, for a transfer in parts after some bytes.
pub data System : Type 0 where
  bad_path : System
  refused limit : ℕ → System
  failed : ℕ → ℕ → System

-- The error of a missing file, ENOENT.
abbrev pub enoent : ℕ
enoent = 2

-- What `pread` on an open file gives: one byte at least, where one is asked for and left.
abbrev pub pread : System → ℕ → ℕ → List ℕ → Result (List ℕ)
pread bad_path offset len content = err invalid_input
pread (refused e) offset len content = err (os e)
pread (failed e n) offset len content = err (os e)
pread (limit n) offset len content = ok (take (min len (suc n)) (drop offset content))

unfoldable pub blocking_pread : System → ℕ → ℕ → Option (List ℕ) → Result (List ℕ)
blocking_pread bad_path offset len none = err invalid_input
blocking_pread (refused e) offset len none = err (os e)
blocking_pread (failed e n) offset len none = err (os enoent)
blocking_pread (limit n) offset len none = err (os enoent)
blocking_pread system offset len (some content) = pread system offset len content

-- `O_CREAT`: the file is there once it is open.
abbrev pub created : Option (List ℕ) → List ℕ
created none = []
created (some content) = content

unfoldable pub blocking_pwrite : System → ℕ → List ℕ → Option (List ℕ) → Result ℕ × Option (List ℕ)
unfolding overwrite
blocking_pwrite bad_path offset buf file = (err invalid_input, file)
blocking_pwrite (refused e) offset buf file = (err (os e), file)
blocking_pwrite (failed e n) offset buf file = (err (os e), some (created file))
blocking_pwrite (limit n) offset buf file =
    (ok (min n (length buf)), some (overwrite offset (take n buf) (created file)))

unfoldable pub blocking_append : System → List ℕ → Option (List ℕ) → Result ℕ × Option (List ℕ)
blocking_append bad_path buf file = (err invalid_input, file)
blocking_append (refused e) buf file = (err (os e), file)
blocking_append (failed e n) buf file = (err (os e), some (created file))
blocking_append (limit n) buf file = (ok (min n (length buf)), some (created file ++ take n buf))

-- `std::fs::read` and `std::fs::write` go on until all is done, or an error; the latter truncates.
abbrev pub fs_read : System → Option (List ℕ) → Result (List ℕ)
fs_read bad_path file = err invalid_input
fs_read (refused e) file = err (os e)
fs_read (failed e n) none = err (os enoent)
fs_read (failed e n) (some content) = err (os e)
fs_read (limit n) none = err (os enoent)
fs_read (limit n) (some content) = ok content

abbrev pub fs_write : System → List ℕ → Option (List ℕ) → Result Unit × Option (List ℕ)
fs_write bad_path buf file = (err invalid_input, file)
fs_write (refused e) buf file = (err (os e), file)
fs_write (failed e n) buf file = (err (os e), some (take n buf))
fs_write (limit n) buf file = (ok tt, some buf)

-- What the posted closure does before it posts the reply.
unfoldable pub perform : System → Op → Option (List ℕ) → Reply × Option (List ℕ)
unfolding blocking_pread blocking_pwrite blocking_append
perform system (read offset len) file = (bytes (blocking_pread system offset len file), file)
perform system read_all file = (bytes (fs_read system file), file)
perform system (write offset buf) file =
    let (r, after) = blocking_pwrite system offset buf file in (count r, after)
perform system (write_all buf) file = let (r, after) = fs_write system buf file in (unit r, after)
perform system (append buf) file =
    let (r, after) = blocking_append system buf file in (count r, after)

-- An operation that the runner performed, with the content before and after it.
pub record Done : Type 0 where
  pub op : Op
  pub before : Option (List ℕ)
  pub reply : Reply
  pub after : Option (List ℕ)

-- The file, the closures in the runner, the replies in the IO runner, and the calls made so far; and for
-- the theorems what was asked, the closures that the runner refused, what was performed, and the replies
-- that the IO runner refused, the last one first.
pub record Proxy : Type 0 where
  pub file : Option (List ℕ)
  pub next : ℕ
  pub posted : List (ℕ × Op)
  pub replies : List (ℕ × Reply)
  pub called : List (ℕ × Reply)
  pub asked : List (ℕ × Op)
  pub refused_ops : List (ℕ × Op)
  pub performed : List (ℕ × Done)
  pub lost : List (ℕ × Reply)

unfoldable pub new : Option (List ℕ) → Proxy
new file = record {
  file = file;
  next = 0;
  posted = [];
  replies = [];
  called = [];
  asked = [];
  refused_ops = [];
  performed = [];
  lost = [];
}

-- Every method posts its closure, and does not look at whether the runner takes it. One that is refused
-- is dropped, with its callback.
unfoldable pub ask : Bool → Op → Proxy → Proxy
ask accepted op p = record p {
  next = p.next + 1;
  posted = if accepted then p.posted ++ (p.next, op) ∷ [] else p.posted;
  asked = (p.next, op) ∷ p.asked;
  refused_ops = if accepted then p.refused_ops else (p.next, op) ∷ p.refused_ops;
}

-- The runner runs a closure, which posts the reply and does not look at whether the IO runner takes it.
unfoldable pub run_posted : System → Bool → Option ((ℕ × Op) × List (ℕ × Op)) → Proxy → Proxy
unfolding perform
run_posted system accepted none p = p
run_posted system accepted (some ((cb, op), posted)) p =
    let (reply, after) = perform system op p.file in
    record p {
      file = after;
      posted = posted;
      replies = if accepted then p.replies ++ (cb, reply) ∷ [] else p.replies;
      lost = if accepted then p.lost else (cb, reply) ∷ p.lost;
      performed =
          (cb, record { op = op; before = p.file; reply = reply; after = after }) ∷ p.performed;
    }

-- The IO thread runs the first reply.
unfoldable pub call : List (ℕ × Reply) → Proxy → Proxy
call [] p = p
call (r ∷ replies) p = record p { replies = replies; called = p.called ++ r ∷ [] }

pub data Event : Type 0 where
  asks : Bool → Op → Event
  runs : ℕ → System → Bool → Event
  calls : Event

unfoldable pub step : Event → Proxy → Proxy
unfolding ask run_posted call extract
step (asks accepted op) p = ask accepted op p
step (runs n system accepted) p = run_posted system accepted (extract n p.posted) p
step calls p = call p.replies p

unfoldable pub run : List Event → Proxy → Proxy
unfolding step
run [] p = p
run (e ∷ es) p = run es (step e p)
