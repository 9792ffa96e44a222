-- ===== src/Async/Stdio/Order.antt =====
-- Reads of the standard input in rust_async/io.rs, one after another, and the pool between them.
use rust_base.Base.{
  ℕ, ◌≡◌, refl, sym, ap, ◌∙◌, subst, Option, none, some, List, [], ◌∷◌, ◌++◌, append_assoc,
}
use rust_base.Sync.{Poll, ready, pending}
use rust_base.Io.Disk.{Result, ok, err, Transfer}
use rust_base.Async.Job.{set}
use rust_base.Async.Tasks.{Offload, ran}
use rust_base.Async.Loop.{Returns}
use rust_base.Async.Stdio.{Stdin, stdin, left_by, answer_of, poll_read, read_runs}
use rust_base.Async.Stdio.Input.{
  Shape, BusyShape, bytes_of, busy_bytes, Holds, ReadsOff, read-all, poll_read-ReadsOff,
}

-- A poll by a task, with the size of its buffer and the answer that comes in the middle of it; the pool
-- runs the job of a read that waits.
pub data Event : Type 0 where
  polls : ℕ → ℕ → Option Transfer → Event
  runs : Transfer → Event

-- With the bytes that the polls have delivered, in order.
abbrev pub delivered :
    List ℕ × (List ℕ × Stdin)
    → Option (Poll (Result (List ℕ)) × (List ℕ × Stdin))
    → List ℕ × (List ℕ × Stdin)
delivered w none = w
delivered (got, s) (some (pending, t)) = (got, t)
delivered (got, s) (some (ready (err e), t)) = (got, t)
delivered (got, s) (some (ready (ok bytes), t)) = (got ++ bytes, t)

unfoldable pub step : Event → List ℕ × (List ℕ × Stdin) → List ℕ × (List ℕ × Stdin)
unfolding poll_read read_runs
step (polls task len answer) (got, s) = delivered (got, s) (poll_read task len answer s)
step (runs t) (got, s) = (got, read_runs t s)

unfoldable pub run : List Event → List ℕ × (List ℕ × Stdin) → List ℕ × (List ℕ × Stdin)
unfolding step
run [] w = w
run (e ∷ es) w = run es (step e w)

-- What is delivered and what the tasks have still to get is the whole input.
abbrev pub Whole : List ℕ → List ℕ × (List ℕ × Stdin) → Type 0
Whole input (got, s) = (rest : List ℕ) × ((got ++ rest ≡ input) × Holds rest s)

delivered-Whole :
    (len : ℕ) (input got rest : List ℕ) (s : List ℕ × Stdin)
    (o : Option (Poll (Result (List ℕ)) × (List ℕ × Stdin)))
    → got ++ rest ≡ input
    → Holds rest s
    → Returns (ReadsOff len rest) o
    → Whole input (delivered (got, s) o)
delivered-Whole len input got rest s none e h r = (rest, (e, h))
delivered-Whole len input got rest s (some (pending, t)) e h r = (rest, (e, r))
delivered-Whole len input got rest s (some (ready (err x), t)) e h r = (rest, (e, r))
delivered-Whole len input got rest s (some (ready (ok bytes), t)) e h (later, (k, l)) =
    (later, (append_assoc got bytes later ∙ ap (λ b. got ++ b) k ∙ e, l))

-- A job in the pool takes its bytes from the input.
job-Holds :
    (t : Transfer) (rest input : List ℕ) (o : Offload ℕ (Result (List ℕ))) (s : Stdin)
    (job posted : Option ℕ) (value : Option (Result (List ℕ)))
    → o.job ≡ job
    → o.posted ≡ posted
    → o.state.value ≡ value
    → Shape job posted value
    → s.leftover ++ (bytes_of value ++ input) ≡ rest
    → Holds rest (
      left_by (some t) posted input,
      record s { busy = some (ran (answer_of (some t) input) posted o).1 },
    )
unfolding left_by answer_of ran set
job-Holds t rest input o s none (some j) none a b c h e = record {
  held = ap (λ k. s.leftover ++ k) (read-all t j input) ∙ e;
  shape = rw a tt;
}
job-Holds t rest input o s job none value a b c h e = record {
  held = rw c e;
  shape = rw a (rw b (rw c h));
}
job-Holds t rest input o s none (some j) (some v) a b c h e = elim h [ ]
job-Holds t rest input o s (some i) (some j) value a b c h e = elim h [ ]

runs-Holds :
    (t : Transfer) (rest : List ℕ) (s : List ℕ × Stdin) → Holds rest s → Holds rest (read_runs t s)
unfolding read_runs
runs-Holds t rest (input, s) h = go s.busy refl
  where
    go :
        (b : Option (Offload ℕ (Result (List ℕ))))
        → s.busy ≡ b
        → Holds rest (elim b [
          | none ↦ (input, s)
          | some job ↦ (
            left_by (some t) job.posted input,
            record s { busy = some (ran (answer_of (some t) input) job.posted job).1 },
          )
        ])
    go none e = h
    go (some o) e =
        job-Holds t rest input o s o.job o.posted o.state.value refl refl refl
          (subst BusyShape e h.shape)
          (ap (λ b. s.leftover ++ (busy_bytes b ++ input)) (sym e) ∙ h.held)

step-Whole :
    (input : List ℕ) (e : Event) (w : List ℕ × (List ℕ × Stdin))
    → Whole input w
    → Whole input (step e w)
unfolding step
step-Whole input (polls task len answer) (got, s) (rest, (e, h)) =
    delivered-Whole len input got rest s (poll_read task len answer s) e h
      (poll_read-ReadsOff task len answer rest s h)
step-Whole input (runs t) (got, s) (rest, (e, h)) = (rest, (e, runs-Holds t rest s h))

run-Whole :
    (input : List ℕ) (es : List Event) (w : List ℕ × (List ℕ × Stdin))
    → Whole input w
    → Whole input (run es w)
unfolding run
run-Whole input [] w h = h
run-Whole input (e ∷ es) w h = run-Whole input es (step e w) (step-Whole input e w h)

-- Whoever polls the standard input with whatever buffers, and whenever the pool runs the reads, with short
-- transfers and errors: no byte of the input is lost, repeated or out of order. What was delivered, then
-- what the handle has read ahead, then what its job has, then what is still to come is the input.
pub run-whole_input :
    (input : List ℕ) (es : List Event)
    → let w = run es ([], (input, stdin)) in
      w.0 ++ (w.1.1.leftover ++ (busy_bytes w.1.1.busy ++ w.1.0)) ≡ input
unfolding stdin
run-whole_input input es =
    let (rest, (e, h)) =
      run-Whole input es ([], (input, stdin)) (input, (refl, record { held = refl; shape = tt })) in
    ap (λ l. (run es ([], (input, stdin))).0 ++ l) h.held ∙ e
