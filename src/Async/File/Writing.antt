-- ===== src/Async/File/Writing.antt =====
-- `File::poll_write` of rust_async/fs.rs is a write at the cursor.
use rust_base.Base.{ℕ, ◌+◌, ◌≡◌, ap, Option, none, some, List, arith, length, take}
use rust_base.Sync.{Poll, ready, pending}
use rust_base.Io.Disk.{Result, ok, err, WriteAll, all, failed_after, overwrite, write_all_at}
use rust_base.Async.Job.{Blocking, completed, set}
use rust_base.Async.File.{File, WriteJob, write_runs}

-- What has become of a write of `buf` at `cursor` to a file that held `before`, when it is over.
abbrev pub Outcome : List ℕ → ℕ → List ℕ → Result ℕ → List ℕ → Type 0
Outcome before cursor buf (ok n) content =
    (n ≡ length buf) × (content ≡ overwrite cursor buf before)
Outcome before cursor buf (err e) content =
    (n : ℕ) × (content ≡ overwrite cursor (take n buf) before)

-- A write that is posted, and then one that has run.
abbrev pub Posted : List ℕ → ℕ → List ℕ → List ℕ → Option WriteJob → Option (Result ℕ) → Type 0
Posted before cursor buf content (some j) none =
    (j.offset ≡ cursor) × (j.bytes ≡ buf) × (content ≡ before)
Posted before cursor buf content none (some r) = Outcome before cursor buf r content
Posted before cursor buf content _ _ = ⊥

abbrev pub BusyWith : List ℕ → ℕ → List ℕ → List ℕ → Option (Blocking WriteJob (Result ℕ)) → Type 0
BusyWith before cursor buf content none = content ≡ before
BusyWith before cursor buf content (some b) = Posted before cursor buf content b.job b.state.value

pub record Writing (before : List ℕ) (cursor : ℕ) (buf content : List ℕ) (f : File) : Type 0 where
  pub here : f.pos ≡ cursor
  pub busy : BusyWith before cursor buf content f.write_busy

abbrev pub WritesTo : List ℕ → ℕ → List ℕ → Poll (Result ℕ) → List ℕ × File → Type 0
WritesTo before cursor buf pending (content, f) = Writing before cursor buf content f
WritesTo before cursor buf (ready (ok n)) (content, f) =
    Outcome before cursor buf (ok n) content × (f.pos ≡ cursor + n) × (f.write_busy ≡ none)
WritesTo before cursor buf (ready (err e)) (content, f) =
    Outcome before cursor buf (err e) content × (f.pos ≡ cursor) × (f.write_busy ≡ none)

-- The pool runs the job.
pub write_runs-Posted :
    (a : WriteAll) (before buf content : List ℕ) (cursor : ℕ) (b : Blocking WriteJob (Result ℕ))
    (j : Option WriteJob) (v : Option (Result ℕ))
    → b.job ≡ j
    → b.state.value ≡ v
    → Posted before cursor buf content j v
    → let after = (write_runs a content b).1 in
      Posted before cursor buf after.0 after.1.job after.1.state.value
unfolding write_runs write_all_at completed set
write_runs-Posted a before buf content cursor b none none e k h = ground arith
write_runs-Posted a before buf content cursor b none (some r) e k h = rw e (rw k h)
write_runs-Posted all before buf content cursor b (some j) none e k h = rw e (ap length h.1, cc)
write_runs-Posted (failed_after n x) before buf content cursor b (some j) none e k h = rw e (n, cc)
write_runs-Posted a before buf content cursor b (some j) (some r) e k h = ground arith
