-- ===== src/Async/File/Seeks.antt =====
-- `File::poll_seek` and `poll_write` of rust_async/fs.rs, when no read is on its way.
use rust_base.Base.{
  ℕ, ◌≡◌, ◌⊎◌, inl, inr, refl, sym, ap, ◌∙◌, subst, Option, none, some, List, [], arith, length,
}
use rust_base.Sync.{Poll, ready, pending}
use rust_base.Io.Disk.{Error, Result, ok, err}
use rust_base.Async.Job.{fs_blocking, poll_job, poll, completed, set, oneshot}
use rust_base.Async.Loop.{Turn, Returns, After, turns-Returns}
use rust_base.Async.File.{
  File, Delta, poll_seek, seek_turn, seek_with, seek_from, moved, sought, run_job, SeekFrom, start,
  current, end, added,
}
use rust_base.Async.File.Cursor.{At, BusyAt, At-pos}

-- Where a seek of a reader goes.
abbrev pub target : List ℕ → ℕ → SeekFrom → Result ℕ
unfolding added
target content cursor (start n) = ok n
target content cursor (current d) = added cursor d
target content cursor (end d) = added (length content) d

-- Only a seek from the end asks the system, and waits for it or has its error.
abbrev pub Asks : SeekFrom → Type 0
Asks (start n) = ⊥
Asks (current d) = ⊥
Asks (end d) = Unit

abbrev pub SeeksTo : List ℕ → ℕ → SeekFrom → Poll (Result ℕ) → File → Type 0
SeeksTo content cursor from pending f = Asks from × At content cursor f
SeeksTo content cursor from (ready (ok n)) f = (target content cursor from ≡ ok n) × At content n f
SeeksTo content cursor from (ready (err e)) f =
    (Asks from ⊎ (target content cursor from ≡ err e)) × At content cursor f

module _ (content : List ℕ) (cursor : ℕ) (f : File) where
  -- Nothing is read ahead after a seek.
  moved-At : (n : ℕ) → f.read_busy ≡ none → At content n (record f { pos = n; read_leftover = [] })
  moved-At n b = record {
    ahead = omega arith;
    rest = refl;
    busy = subst (BusyAt content n) (sym b) tt;
  }

  answered-SeeksTo :
      (from : SeekFrom) (r : Result ℕ)
      → f.read_busy ≡ none
      → At content cursor f
      → ((n : ℕ) → r ≡ ok n → target content cursor from ≡ ok n)
      → ((e : Error) → r ≡ err e → Asks from ⊎ (target content cursor from ≡ err e))
      → (turn : File → Turn (Poll (Result ℕ)) File) (n : ℕ)
      → After turn (SeeksTo content cursor from) n (moved r f)
  answered-SeeksTo from (ok k) b h t e turn n = (t k refl, moved-At k b)
  answered-SeeksTo from (err x) b h t e turn n = (e x refl, h)

seek_turn-none :
    (task : ℕ) (from : SeekFrom) (ran : Option (Option ℕ)) (content : List ℕ) (f : File)
    → f.seek_busy ≡ none
    → seek_turn task from ran content f ≡ seek_from from ran content f
unfolding seek_turn seek_with
seek_turn-none task from ran content f s = ap (λ b. seek_with task from ran content b f) s

-- The turn after the one that asks the system.
asked-SeeksTo :
    (task cursor : ℕ) (d : Delta) (ran : Option (Option ℕ)) (content : List ℕ) (f : File)
    → f.read_busy ≡ none
    → At content cursor f
    → After (seek_turn task (end d) ran content) (SeeksTo content cursor (end d)) 0 (
        seek_with task
          (end d)
          ran
          content
          (some (run_job (sought d ran content) (fs_blocking d)))
          f)
unfolding seek_with fs_blocking poll_job poll completed set oneshot sought
asked-SeeksTo task cursor d none content f b h =
    (tt, record { ahead = h.ahead; rest = h.rest; busy = h.busy })
asked-SeeksTo task cursor d (some none) content f b h =
    answered-SeeksTo content cursor (record f { seek_busy = none }) (end d)
      (added (length content) d) b (record { ahead = h.ahead; rest = h.rest; busy = h.busy })
      (λ k e. e) (λ x e. inl tt) (seek_turn task (end d) (some none) content) 0
asked-SeeksTo task cursor d (some (some x)) content f b h =
    (inl tt, record { ahead = h.ahead; rest = h.rest; busy = h.busy })

-- A seek from the start goes there, whatever was read ahead.
pub poll_seek-start :
    (task n : ℕ) (ran : Option (Option ℕ)) (content : List ℕ) (f : File)
    → f.read_busy ≡ none
    → f.seek_busy ≡ none
    → Returns (λ o g. At content n g) (poll_seek task (start n) ran content f)
unfolding poll_seek seek_from
poll_seek-start task n ran content f b s =
    turns-Returns (seek_turn task (start n) ran content) (λ o g. At content n g) 1 f
      (subst (After (seek_turn task (start n) ran content) (λ o g. At content n g) 1)
        (sym (seek_turn-none task (start n) ran content f s)) (moved-At content n f n b))

-- A seek is one of a reader at its cursor, when no read and no other seek is on its way and nothing is
-- read ahead: its loop ends, and it goes where `target` says, or fails as that does; only a seek from the
-- end may wait for the system or have an error of it, and then the reader stays.
pub poll_seek-SeeksTo :
    (task cursor : ℕ) (from : SeekFrom) (ran : Option (Option ℕ)) (content : List ℕ) (f : File)
    → f.read_busy ≡ none
    → f.seek_busy ≡ none
    → f.read_leftover ≡ []
    → At content cursor f
    → Returns (SeeksTo content cursor from) (poll_seek task from ran content f)
unfolding poll_seek target seek_from
poll_seek-SeeksTo task cursor from ran content f b s l h =
    turns-Returns (seek_turn task from ran content) (SeeksTo content cursor from) 1 f (
      subst (After (seek_turn task from ran content) (SeeksTo content cursor from) 1)
        (sym (seek_turn-none task from ran content f s)) (go from))
  where
    go :
        (from : SeekFrom)
        → After
            (seek_turn task from ran content)
            (SeeksTo content cursor from)
            1
            (seek_from from ran content f)
    go (start n) =
        answered-SeeksTo content cursor f (start n) (ok n) b h (λ k e. e) (λ x e. ground arith)
          (seek_turn task (start n) ran content) 1
    go (current d) =
        let here : added cursor d ≡ added f.pos d =
          ap (λ p. added p d) (sym (At-pos content cursor f l h)) in
        answered-SeeksTo content cursor f (current d) (added f.pos d) b h (λ k e. here ∙ e)
          (λ x e. inr (here ∙ e)) (seek_turn task (current d) ran content) 1
    go (end d) =
        let g : File = record f {
          seek_busy = some (run_job (sought d ran content) (fs_blocking d));
        } in
        turns-Returns (seek_turn task (end d) ran content) (SeeksTo content cursor (end d)) 0 g (
          asked-SeeksTo task cursor d ran content g b
            (record { ahead = h.ahead; rest = h.rest; busy = h.busy }))
