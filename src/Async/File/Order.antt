-- ===== src/Async/File/Order.antt =====
-- Reads of a file of rust_async/fs.rs, one after another, and the pool between them.
use rust_base.Base.{
  ℕ, ◌+◌, ◌≡◌, refl, sym, ap, ◌∙◌, subst, Option, none, some, List, [], ◌∷◌, ◌++◌, append_assoc,
  arith, length, length-append, drop,
}
use rust_base.Sync.{Poll, ready, pending}
use rust_base.Io.Disk.{Result, ok, err, Transfer}
use rust_base.Async.Job.{Blocking, completed, set}
use rust_base.Async.Loop.{Returns}
use rust_base.Async.File.{File, ReadJob, poll_read, read_runs}
use rust_base.Async.File.Cursor.{At, ReadsTo, BusyAt, JobAt, read_at-ValueAt}
use rust_base.Async.File.Reading.{poll_read-ReadsTo}

-- A poll by a task, with the size of its buffer and what the pool does with a job that it posts; the
-- pool runs the job of a read that waits.
pub data Event : Type 0 where
  polls : ℕ → ℕ → Option Transfer → Event
  runs : Transfer → Event

-- With the bytes that the polls have delivered, in order.
abbrev pub delivered : List ℕ × File → Option (Poll (Result (List ℕ)) × File) → List ℕ × File
delivered s none = s
delivered (got, f) (some (pending, g)) = (got, g)
delivered (got, f) (some (ready (err e), g)) = (got, g)
delivered (got, f) (some (ready (ok bytes), g)) = (got ++ bytes, g)

abbrev pub has_run : Transfer → List ℕ → Option (Blocking ReadJob (Result (List ℕ))) → File → File
has_run t content none f = f
has_run t content (some b) f = record f { read_busy = some (read_runs t content b).1 }

unfoldable pub step : List ℕ → Event → List ℕ × File → List ℕ × File
unfolding poll_read
step content (polls task len ran) (got, f) = delivered (got, f) (poll_read task len ran content f)
step content (runs t) (got, f) = (got, has_run t content f.read_busy f)

unfoldable pub run : List ℕ → List Event → List ℕ × File → List ℕ × File
unfolding step
run content [] s = s
run content (e ∷ es) s = run content es (step content e s)

-- The reader stands after the bytes that were delivered.
abbrev pub After : List ℕ → ℕ → List ℕ × File → Type 0
After content from (got, f) =
    At content (from + length got) f × (got ++ drop (from + length got) content ≡ drop from content)

delivered-After :
    (content got : List ℕ) (from len : ℕ) (f : File) (o : Option (Poll (Result (List ℕ)) × File))
    → After content from (got, f)
    → Returns (ReadsTo content len (from + length got)) o
    → After content from (delivered (got, f) o)
delivered-After content got from len f none h r = h
delivered-After content got from len f (some (pending, g)) h r = (r, h.1)
delivered-After content got from len f (some (ready (err e), g)) h r = (r, h.1)
delivered-After content got from len f (some (ready (ok bytes), g)) h r =
    let e : from + length (got ++ bytes) ≡ (from + length got) + length bytes =
      omega (arith, length-append got bytes) in
    (
      subst (λ k. At content k g) (sym e) r.1,
      append_assoc got bytes _
          ∙ ap (λ k. got ++ (bytes ++ drop k content)) e
          ∙ ap (λ l. got ++ l) r.0.next
          ∙ h.1,
    )

ran-BusyAt :
    (t : Transfer) (content : List ℕ) (offset : ℕ) (j : Option ReadJob)
    (b : Blocking ReadJob (Result (List ℕ)))
    → b.job ≡ j
    → BusyAt content offset (some b)
    → BusyAt content offset (some (read_runs t content b).1)
unfolding completed set
ran-BusyAt t content offset none b e h = rw e (tt, h.1)
ran-BusyAt t content offset (some j) b e h =
    rw e (tt, read_at-ValueAt t j offset content (subst (JobAt offset) e h.0))

step-After :
    (content : List ℕ) (from : ℕ) (e : Event) (s : List ℕ × File)
    → After content from s
    → After content from (step content e s)
unfolding step
step-After content from (polls task len ran) (got, f) h =
    delivered-After content got from len f (poll_read task len ran content f) h
      (poll_read-ReadsTo task len (from + length got) ran content f h.0)
step-After content from (runs t) (got, f) h = (go f.read_busy h.0.busy, h.1)
  where
    go :
        (b : Option (Blocking ReadJob (Result (List ℕ))))
        → BusyAt content f.pos b
        → At content (from + length got) (has_run t content b f)
    go none k = h.0
    go (some b) k = record {
      ahead = h.0.ahead;
      rest = h.0.rest;
      busy = ran-BusyAt t content f.pos b.job b refl k;
    }

run-After :
    (content : List ℕ) (from : ℕ) (es : List Event) (s : List ℕ × File)
    → After content from s
    → After content from (run content es s)
unfolding run
run-After content from [] s h = h
run-After content from (e ∷ es) s h =
    run-After content from es (step content e s) (step-After content from e s h)

-- Whatever the sizes of the buffers are, whenever the pool runs the jobs, and however few bytes the
-- system gives or with what errors, reads of a file that does not change deliver its bytes in order, from
-- where the reader stood, and none is lost or repeated: what was delivered, with what follows it in the
-- content, is what followed the cursor, and the file stands for a reader that is after those bytes.
pub run-reads_in_order :
    (content : List ℕ) (es : List Event) (from : ℕ) (f : File)
    → At content from f
    → After content from (run content es ([], f))
run-reads_in_order content es from f h =
    let e : from ≡ from + 0 = omega arith in
    run-After content from es ([], f)
      (subst (λ k. At content k f) e h, ap (λ k. drop k content) (sym e))
