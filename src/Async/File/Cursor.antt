-- ===== src/Async/File/Cursor.antt =====
-- The reader that `File` of rust_async/fs.rs stands for: it has the content and a cursor.
use rust_base.Base.{
  ℕ, suc, ◌+◌, ◌≤◌, ◌≡◌, inl, inr, refl, sym, ap, ◌∙◌, subst, Option, none, some, List, [], ◌++◌,
  arith, length, take, drop, min, drop-append, drop-add,
}
use rust_base.Sync.{Poll, ready, pending}
use rust_base.Io.Disk.{Result, ok, err, Transfer, limit, failed, read_at}
use rust_base.Io.Disk.Laws.{Next, read_at-Next}
use rust_base.Async.Job.{Blocking}
use rust_base.Async.File.{File, ReadJob}

-- Bytes that follow an offset, and none only at the end.
pub record Follow (content : List ℕ) (offset : ℕ) (bytes : List ℕ) : Type 0 where
  pub follow : bytes ++ drop (offset + length bytes) content ≡ drop offset content
  pub at_end : (length bytes ≡ 0) → length content ≤ offset

abbrev pub ValueAt : List ℕ → ℕ → Option (Result (List ℕ)) → Type 0
ValueAt content offset none = Unit
ValueAt content offset (some (err e)) = Unit
ValueAt content offset (some (ok bytes)) = Follow content offset bytes

abbrev pub JobAt : ℕ → Option ReadJob → Type 0
JobAt offset none = Unit
JobAt offset (some j) = (j.offset ≡ offset) × (1 ≤ j.len)

abbrev pub BusyAt : List ℕ → ℕ → Option (Blocking ReadJob (Result (List ℕ))) → Type 0
BusyAt content offset none = Unit
BusyAt content offset (some b) = JobAt offset b.job × ValueAt content offset b.state.value

-- The file stands for a reader at `cursor`: what was read ahead comes next, and then what follows `pos`.
pub record At (content : List ℕ) (cursor : ℕ) (f : File) : Type 0 where
  pub ahead : f.pos ≡ cursor + length f.read_leftover
  pub rest : f.read_leftover ++ drop f.pos content ≡ drop cursor content
  pub busy : BusyAt content f.pos f.read_busy

-- What a read of the reader may answer, and where it stands then.
abbrev pub ReadsTo : List ℕ → ℕ → ℕ → Poll (Result (List ℕ)) → File → Type 0
ReadsTo content len cursor pending f = At content cursor f
ReadsTo content len cursor (ready (err e)) f = At content cursor f
ReadsTo content len cursor (ready (ok bytes)) f =
    Next content cursor len bytes × At content (cursor + length bytes) f

pub read_at-ValueAt :
    (t : Transfer) (j : ReadJob) (offset : ℕ) (content : List ℕ)
    → JobAt offset (some j)
    → ValueAt content offset (some (read_at t j.offset j.len content))
unfolding read_at
read_at-ValueAt (failed e) j offset content h = tt
read_at-ValueAt (limit n) j offset content h =
    let next = read_at-Next n j.offset j.len content in
    subst (λ k. Follow content k (take (min j.len (suc n)) (drop j.offset content))) h.0
      (record {
        follow = next.next;
        at_end = λ z. elim (next.some_left z) [ inl e ↦ ground (arith, h.1) | inr l ↦ l ];
      })

-- What is left after some bytes follows them.
pub advance :
    (content : List ℕ) (cursor : ℕ) (bytes rest : List ℕ)
    → bytes ++ rest ≡ drop cursor content
    → rest ≡ drop (cursor + length bytes) content
advance content cursor bytes rest e =
    sym (drop-append (length bytes) bytes rest refl)
    ∙ ap (drop (length bytes)) e
    ∙ sym (drop-add cursor (length bytes) content)

pub At-pos :
    (content : List ℕ) (cursor : ℕ) (f : File)
    → f.read_leftover ≡ []
    → At content cursor f
    → f.pos ≡ cursor
At-pos content cursor f e h = omega (arith, h.ahead, ap length e)
