-- ===== src/Io/FileProxy/Spec.antt =====
-- What an operation of rust_io/file_proxy.rs may do to a file, whatever the system does.
use rust_base.Base.{
  ℕ, ◌+◌, ◌-◌, ◌≤◌, ◌≡◌, refl, ◌⊎◌, inl, inr, Option, none, some, List, [], ◌∷◌, ◌++◌, length, take,
  drop, min, arith, take-min,
}
use rust_base.Io.Disk.{zeros, overwrite, ok, err}
use rust_base.Io.Disk.Laws.{Next, read_at-Next, take-overwrite, drop-overwrite}
use rust_base.Io.FileProxy.{
  Op, read, read_all, write, write_all, append, Reply, bytes, count, unit, System, bad_path,
  refused, limit, failed, created, blocking_pread, blocking_pwrite, blocking_append, perform,
}

-- A file that is there, with the bytes at that place.
abbrev pub Read : ℕ → ℕ → Option (List ℕ) → List ℕ → Type 0
Read offset len none bs = ⊥
Read offset len (some content) bs = Next content offset len bs

-- Some bytes stand at that place, with zeros between the old end and them; what is before and behind them
-- stays. No byte changes nothing.
abbrev pub Written : ℕ → List ℕ → List ℕ → List ℕ → Type 0
Written offset [] content after = after ≡ content
Written offset (b ∷ bs) content after =
    (take offset after ≡ take offset (content ++ zeros (offset - length content)))
    × (drop offset after ≡ b ∷ bs ++ drop (offset + length (b ∷ bs)) content)

-- An operation that failed may have created the file.
abbrev pub AtMostCreated : Option (List ℕ) → Option (List ℕ) → Type 0
AtMostCreated before after = (after ≡ before) ⊎ (after ≡ some (created before))

abbrev pub Reads : ℕ → ℕ → Option (List ℕ) → Reply → Option (List ℕ) → Type 0
Reads offset len before (bytes (ok bs)) after = (after ≡ before) × Read offset len before bs
Reads offset len before (bytes (err e)) after = after ≡ before
Reads offset len before (count r) after = ⊥
Reads offset len before (unit r) after = ⊥

abbrev pub ReadsAll : Option (List ℕ) → Reply → Option (List ℕ) → Type 0
ReadsAll before (bytes (ok bs)) after = (after ≡ before) × (before ≡ some bs)
ReadsAll before (bytes (err e)) after = after ≡ before
ReadsAll before (count r) after = ⊥
ReadsAll before (unit r) after = ⊥

abbrev pub Writes : ℕ → List ℕ → Option (List ℕ) → Reply → Option (List ℕ) → Type 0
Writes offset buf before (count (ok n)) none = ⊥
Writes offset buf before (count (ok n)) (some after) =
    (n ≤ length buf) × Written offset (take n buf) (created before) after
Writes offset buf before (count (err e)) after = AtMostCreated before after
Writes offset buf before (bytes r) after = ⊥
Writes offset buf before (unit r) after = ⊥

abbrev pub Appends : List ℕ → Option (List ℕ) → Reply → Option (List ℕ) → Type 0
Appends buf before (count (ok n)) after =
    (n ≤ length buf) × (after ≡ some (created before ++ take n buf))
Appends buf before (count (err e)) after = AtMostCreated before after
Appends buf before (bytes r) after = ⊥
Appends buf before (unit r) after = ⊥

-- One that fails on its way leaves the first bytes, alone.
abbrev pub Replaces : List ℕ → Option (List ℕ) → Reply → Option (List ℕ) → Type 0
Replaces buf before (unit (ok _)) after = after ≡ some buf
Replaces buf before (unit (err e)) after =
    (after ≡ before) ⊎ ((n : ℕ) × (after ≡ some (take n buf)))
Replaces buf before (bytes r) after = ⊥
Replaces buf before (count r) after = ⊥

abbrev pub Does : Op → Option (List ℕ) → Reply → Option (List ℕ) → Type 0
Does (read offset len) = Reads offset len
Does read_all = ReadsAll
Does (write offset buf) = Writes offset buf
Does (write_all buf) = Replaces buf
Does (append buf) = Appends buf

overwrite-Written :
    (offset : ℕ) (bs content : List ℕ) → Written offset bs content (overwrite offset bs content)
overwrite-Written offset [] content = unfold overwrite in refl
overwrite-Written offset (b ∷ bs) content =
    (take-overwrite offset b bs content, drop-overwrite offset (b ∷ bs) content)

min-le : (n m : ℕ) → min n m ≤ m
min-le n m = ground arith

taken-Written :
    (offset n : ℕ) (buf content : List ℕ)
    → Written offset (take (min n (length buf)) buf) content (overwrite offset (take n buf) content)
taken-Written offset n buf content =
    rw (take-min n buf) (overwrite-Written offset (take n buf) content)

pub perform-Does :
    (system : System) (op : Op) (file : Option (List ℕ))
    → Does op file (perform system op file).0 (perform system op file).1
unfolding perform blocking_pread blocking_pwrite blocking_append
perform-Does bad_path (read offset len) none = refl
perform-Does bad_path (read offset len) (some content) = refl
perform-Does (refused e) (read offset len) none = refl
perform-Does (refused e) (read offset len) (some content) = refl
perform-Does (failed e n) (read offset len) none = refl
perform-Does (failed e n) (read offset len) (some content) = refl
perform-Does (limit n) (read offset len) none = refl
perform-Does (limit n) (read offset len) (some content) = (refl, read_at-Next n offset len content)
perform-Does bad_path read_all file = refl
perform-Does (refused e) read_all file = refl
perform-Does (failed e n) read_all none = refl
perform-Does (failed e n) read_all (some content) = refl
perform-Does (limit n) read_all none = refl
perform-Does (limit n) read_all (some content) = (refl, refl)
perform-Does bad_path (write offset buf) file = inl refl
perform-Does (refused e) (write offset buf) file = inl refl
perform-Does (failed e n) (write offset buf) file = inr refl
perform-Does (limit n) (write offset buf) file =
    (min-le n (length buf), taken-Written offset n buf (created file))
perform-Does bad_path (write_all buf) file = inl refl
perform-Does (refused e) (write_all buf) file = inl refl
perform-Does (failed e n) (write_all buf) file = inr (n, refl)
perform-Does (limit n) (write_all buf) file = refl
perform-Does bad_path (append buf) file = inl refl
perform-Does (refused e) (append buf) file = inl refl
perform-Does (failed e n) (append buf) file = inr refl
perform-Does (limit n) (append buf) file = (min-le n (length buf), rw (take-min n buf) refl)
