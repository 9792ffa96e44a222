-- ===== src/Async/File/Reading.antt =====
-- `File::poll_read` of rust_async/fs.rs is a read of a reader that has the content and a cursor.
use rust_base.Base.{
  ℕ, suc, zero, ◌+◌, ◌≤◌, ◌≡◌, inl, inr, refl, sym, ap, ◌∙◌, subst, false, Option, none, some, List,
  [], ◌∷◌, ◌++◌, append_assoc, arith, length, take, drop, is_empty, take-drop, length-take,
  length-append,
}
use rust_base.Sync.{Poll, ready, pending}
use rust_base.Io.Disk.{Result, ok, err, Transfer}
use rust_base.Async.Job.{Blocking, poll_job, poll, polled, fs_blocking, completed, set, oneshot}
use rust_base.Async.Loop.{Returns, After, turns-Returns}
use rust_base.Async.File.{
  File, ReadJob, poll_read, read_turn, read_with, read_polled, read_leftover, run_job, read_ran,
  at_least_one,
}
use rust_base.Async.File.Cursor.{
  At-pos, Follow, ValueAt, BusyAt, At, ReadsTo, read_at-ValueAt, advance,
}

read_turn-left :
    (task len : ℕ) (ran : Option Transfer) (content : List ℕ) (f : File)
    → is_empty f.read_leftover ≡ false
    → read_turn task len ran content f ≡ read_leftover len f
unfolding read_turn
read_turn-left task len ran content f e = rw e refl

read_turn-empty :
    (task len : ℕ) (ran : Option Transfer) (content : List ℕ) (f : File)
    → f.read_leftover ≡ []
    → read_turn task len ran content f ≡ read_with task len ran content f.read_busy f
unfolding read_turn
read_turn-empty task len ran content f e = rw (ap is_empty e) refl

abbrev value_of : Poll (Result (List ℕ)) → Option (Result (List ℕ))
value_of pending = none
value_of (ready v) = some v

some_len : (len : ℕ) → 1 ≤ at_least_one len
some_len zero = omega arith
some_len (suc len) = omega arith

-- A job that is posted reads from there.
posted-BusyAt :
    (len offset : ℕ) (ran : Option Transfer) (content : List ℕ)
    → let job : ReadJob = record { offset = offset; len = at_least_one len } in
      BusyAt content offset (some (run_job (read_ran job ran content) (fs_blocking job)))
unfolding fs_blocking completed oneshot set
posted-BusyAt len offset none content = ((refl, some_len len), tt)
posted-BusyAt len offset (some t) content =
    let job : ReadJob = record { offset = offset; len = at_least_one len } in
    (tt, read_at-ValueAt t job offset content (refl, some_len len))

module _ (task len : ℕ) (ran : Option Transfer) (content : List ℕ) where
  -- Read ahead, the bytes are taken from there.
  leftover-ReadsTo :
      (cursor b : ℕ) (bs : List ℕ) (f : File)
      → f.read_leftover ≡ b ∷ bs
      → At content cursor f
      → ReadsTo content len cursor
          (ready (ok (take len f.read_leftover)))
          (record f { read_leftover = drop len f.read_leftover })
  leftover-ReadsTo cursor b bs f e h =
      let taken = take len f.read_leftover in
      let kept = drop len f.read_leftover in
      let split : taken ++ kept ≡ f.read_leftover = take-drop len f.read_leftover in
      let parts = length-append taken kept in
      let whole : length (taken ++ kept) ≡ length f.read_leftover = ap length split in
      let all : taken ++ (kept ++ drop f.pos content) ≡ drop cursor content =
        sym (append_assoc taken kept (drop f.pos content))
        ∙ ap (λ l. l ++ drop f.pos content) split
        ∙ h.rest in
      let left : kept ++ drop f.pos content ≡ drop (cursor + length taken) content =
        advance content cursor taken (kept ++ drop f.pos content) all in
      (
        record {
          next = ap (λ l. taken ++ l) (sym left) ∙ all;
          fits = omega (arith, length-take len f.read_leftover);
          some_left = λ z. inl (omega (arith, length-take len f.read_leftover, ap length e));
        },
        record { ahead = omega (arith, h.ahead); rest = left; busy = h.busy },
      )

  left-After :
      (n cursor b : ℕ) (bs : List ℕ) (f : File)
      → f.read_leftover ≡ b ∷ bs
      → At content cursor f
      → After
          (read_turn task len ran content)
          (ReadsTo content len cursor)
          n
          (read_turn task len ran content f)
  left-After n cursor b bs f e h =
      subst (After (read_turn task len ran content) (ReadsTo content len cursor) n) turn
        (leftover-ReadsTo cursor b bs f e h)
    where
      turn : read_leftover len f ≡ read_turn task len ran content f
      turn = sym (read_turn-left task len ran content f (ap is_empty e))

  polled-After :
      (n cursor : ℕ) (o : Poll (Result (List ℕ)) × Blocking ReadJob (Result (List ℕ))) (f : File)
      → f.read_leftover ≡ []
      → At content cursor f
      → (o.0 ≡ pending → BusyAt content f.pos (some o.1))
      → ((bytes : List ℕ) → o.0 ≡ ready (ok bytes) → Follow content f.pos bytes)
      → After
          (read_turn task len ran content)
          (ReadsTo content len cursor)
          (suc n)
          (read_polled o f)
  polled-After n cursor (pending, job) f e h p r = record {
    ahead = h.ahead;
    rest = h.rest;
    busy = p refl;
  }
  polled-After n cursor (ready (err x), job) f e h p r = record {
    ahead = h.ahead;
    rest = h.rest;
    busy = tt;
  }
  polled-After n cursor (ready (ok []), job) f e h p r =
      let here = At-pos content cursor f e h in
      let stays : drop (cursor + 0) content ≡ drop cursor content =
        ap (λ k. drop k content) (omega arith) in
      (
        record {
          next = stays;
          fits = omega arith;
          some_left = λ z. inr (omega (arith, (r [] refl).at_end refl));
        },
        record { ahead = omega (arith, h.ahead); rest = h.rest ∙ sym stays; busy = tt },
      )
  polled-After n cursor (ready (ok (b ∷ bs)), job) f e h p r =
      turns-Returns (read_turn task len ran content) (ReadsTo content len cursor) n _
        (left-After n cursor b bs _ refl arrived)
    where
      here : f.pos ≡ cursor
      here = At-pos content cursor f e h

      arrived :
          At content cursor
            (record f { pos = f.pos + length (b ∷ bs); read_busy = none; read_leftover = b ∷ bs })
      arrived = record {
        ahead = omega (arith, here);
        rest = (r (b ∷ bs) refl).follow ∙ ap (λ k. drop k content) here;
        busy = tt;
      }

  job-After :
      (n cursor : ℕ) (job : Blocking ReadJob (Result (List ℕ))) (f : File)
      → f.read_leftover ≡ []
      → At content cursor f
      → BusyAt content f.pos (some job)
      → After
          (read_turn task len ran content)
          (ReadsTo content len cursor)
          (suc n)
          (read_with task len ran content (some job) f)
  unfolding poll_job poll read_with
  job-After n cursor job f e h b = go job.state.value b.1
    where
      go :
          (v : Option (Result (List ℕ)))
          → ValueAt content f.pos v
          → let o = polled task v job.state in
            After
              (read_turn task len ran content)
              (ReadsTo content len cursor)
              (suc n)
              (read_polled (o.0, record job { state = o.1 }) f)
      go none t =
          polled-After n cursor
            (pending, record job { state = record job.state { waker = some task } }) f e h (λ p. b)
            (λ bytes r. ground arith)
      go (some v) t =
          polled-After n cursor (ready v, record job { state = record job.state { value = none } })
            f e h (λ p. ground arith) (λ bytes r. subst (ValueAt content f.pos) (ap value_of r) t)

  with-After :
      (cursor : ℕ) (busy : Option (Blocking ReadJob (Result (List ℕ)))) (f : File)
      → f.read_leftover ≡ []
      → At content cursor f
      → BusyAt content f.pos busy
      → After
          (read_turn task len ran content)
          (ReadsTo content len cursor)
          2
          (read_with task len ran content busy f)
  unfolding read_with
  with-After cursor (some job) f e h b = job-After 1 cursor job f e h b
  with-After cursor none f e h b =
      let job : ReadJob = record { offset = f.pos; len = at_least_one len } in
      let posted = run_job (read_ran job ran content) (fs_blocking job) in
      let g : File = record f { read_busy = some posted } in
      let busy = posted-BusyAt len f.pos ran content in
      let at : At content cursor g = record { ahead = h.ahead; rest = h.rest; busy = busy } in
      turns-Returns (read_turn task len ran content) (ReadsTo content len cursor) 1 g (
        subst (After (read_turn task len ran content) (ReadsTo content len cursor) 1)
          (sym (read_turn-empty task len ran content g e)) (job-After 0 cursor posted g e at busy))

-- A read is one of a reader that has the content and a cursor, wherever the pool is with its job: the
-- loop of `poll_read` ends, an answer is the next bytes of the content, as many as were asked for at most
-- and none only at the end of the file, and the cursor is after them; nothing else moves it.
pub poll_read-ReadsTo :
    (task len cursor : ℕ) (ran : Option Transfer) (content : List ℕ) (f : File)
    → At content cursor f
    → Returns (ReadsTo content len cursor) (poll_read task len ran content f)
unfolding poll_read
poll_read-ReadsTo task len cursor ran content f h =
    turns-Returns (read_turn task len ran content) (ReadsTo content len cursor) 2 f
      (go f.read_leftover refl)
  where
    go :
        (l : List ℕ)
        → f.read_leftover ≡ l
        → After
            (read_turn task len ran content)
            (ReadsTo content len cursor)
            2
            (read_turn task len ran content f)
    go [] e =
        subst (After (read_turn task len ran content) (ReadsTo content len cursor) 2)
          (sym (read_turn-empty task len ran content f e))
          (with-After task len ran content cursor f.read_busy f e h h.busy)
    go (b ∷ bs) e = left-After task len ran content 2 cursor b bs f e h
