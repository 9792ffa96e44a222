-- ===== src/Async/Stdio/Input.antt =====
-- What `Stdin` of rust_async/io.rs holds of the input.
use rust_base.Base.{
  ℕ, suc, ◌≡◌, refl, sym, ap, ◌∙◌, subst, true, false, Option, none, some, List, [], ◌∷◌, ◌++◌,
  append_assoc, take, drop, min, is_empty, take-drop,
}
use rust_base.Sync.{Poll, ready, pending}
use rust_base.Io.Disk.{Result, ok, err, Transfer, limit, failed}
use rust_base.Async.Job.{set, poll, oneshot}
use rust_base.Async.Tasks.{Offload, offload, offload_poll, ran, ran_by, asked}
use rust_base.Async.File.{at_least_one}
use rust_base.Async.Loop.{returns, Returns, After, turns-Returns}
use rust_base.Async.Stdio.{
  Stdin, read, left_by, answer_of, read_polled, read_with, read_turn, poll_read,
}

-- A job is posted, is in the pool, or has its result.
abbrev pub Shape : Option ℕ → Option ℕ → Option (Result (List ℕ)) → Type 0
Shape (some len) none none = Unit
Shape none (some len) none = Unit
Shape none none (some v) = Unit
Shape _ _ _ = ⊥

abbrev pub BusyShape : Option (Offload ℕ (Result (List ℕ))) → Type 0
BusyShape none = Unit
BusyShape (some o) = Shape o.job o.posted o.state.value

abbrev pub bytes_of : Option (Result (List ℕ)) → List ℕ
bytes_of none = []
bytes_of (some (err e)) = []
bytes_of (some (ok bytes)) = bytes

abbrev pub busy_bytes : Option (Offload ℕ (Result (List ℕ))) → List ℕ
busy_bytes none = []
busy_bytes (some o) = bytes_of o.state.value

-- What the tasks have still to get: what was read ahead, and what is still to come.
pub record Holds (rest : List ℕ) (s : List ℕ × Stdin) : Type 0 where
  pub held : s.1.leftover ++ (busy_bytes s.1.busy ++ s.0) ≡ rest
  pub shape : BusyShape s.1.busy

-- A poll that answers takes the bytes off the front.
abbrev pub ReadsOff : ℕ → List ℕ → Poll (Result (List ℕ)) → List ℕ × Stdin → Type 0
ReadsOff len rest pending s = Holds rest s
ReadsOff len rest (ready (err e)) s = Holds rest s
ReadsOff len rest (ready (ok bytes)) s =
    (later : List ℕ) × ((bytes ++ later ≡ rest) × Holds later s)

pub read-all :
    (t : Transfer) (len : ℕ) (input : List ℕ)
    → bytes_of (some (read t len input).0) ++ (read t len input).1 ≡ input
unfolding read
read-all (failed e) len input = refl
read-all (limit n) len input = take-drop (min len (suc n)) input

read_turn-left :
    (task len : ℕ) (answer : Option Transfer) (input : List ℕ) (s : Stdin)
    → is_empty s.leftover ≡ false
    → read_turn task len answer (input, s)
      ≡ returns
          (ready (ok (take len s.leftover)))
          (input, record s { leftover = drop len s.leftover })
unfolding read_turn
read_turn-left task len answer input s e = rw e refl

read_turn-empty :
    (task len : ℕ) (answer : Option Transfer) (input : List ℕ) (s : Stdin)
    → is_empty s.leftover ≡ true
    → read_turn task len answer (input, s) ≡ read_with task len answer input s.busy s
unfolding read_turn
read_turn-empty task len answer input s e = rw e refl

module _ (task len : ℕ) (answer : Option Transfer) where
  left-After :
      (n : ℕ) (rest input : List ℕ) (s : Stdin)
      → is_empty s.leftover ≡ false
      → Holds rest (input, s)
      → After
          (read_turn task len answer)
          (ReadsOff len rest)
          n
          (read_turn task len answer (input, s))
  left-After n rest input s e h =
      let later = drop len s.leftover ++ (busy_bytes s.busy ++ input) in
      subst (After (read_turn task len answer) (ReadsOff len rest) n)
        (sym (read_turn-left task len answer input s e))
        (
          later,
          (
            sym (append_assoc (take len s.leftover) (drop len s.leftover) _)
                ∙ ap (λ l. l ++ (busy_bytes s.busy ++ input)) (take-drop len s.leftover)
                ∙ h.held,
            record { held = refl; shape = h.shape },
          ),
        )

  value-After :
      (n : ℕ) (rest input : List ℕ) (v : Result (List ℕ)) (woken : List ℕ)
      (job : Offload ℕ (Result (List ℕ))) (s : Stdin)
      → s.leftover ≡ []
      → bytes_of (some v) ++ input ≡ rest
      → After
          (read_turn task len answer)
          (ReadsOff len rest)
          (suc n)
          (read_polled input (ready v, (woken, job)) s)
  value-After n rest input (err x) woken job s l e = record {
    held = ap (λ k. k ++ input) l ∙ e;
    shape = tt;
  }
  value-After n rest input (ok []) woken job s l e =
      (input, (e, record { held = ap (λ k. k ++ input) l; shape = tt }))
  value-After n rest input (ok (b ∷ bs)) woken job s l e =
      turns-Returns (read_turn task len answer) (ReadsOff len rest) n
        (input, record s { busy = none; leftover = b ∷ bs })
        (left-After n rest input (record s { busy = none; leftover = b ∷ bs }) refl
          (record { held = e; shape = tt }))

-- What a job that is polled gives, and what it leaves.
job-After :
    (task len n : ℕ) (answer : Option Transfer) (rest input : List ℕ) (job posted : Option ℕ)
    (value : Option (Result (List ℕ))) (waker : Option ℕ) (s : Stdin)
    → Shape job posted value
    → s.leftover ≡ []
    → bytes_of value ++ input ≡ rest
    → let o : Offload ℕ (Result (List ℕ)) = record {
      job = job;
      posted = posted;
      state = record { value = value; waker = waker };
    } in
      After
        (read_turn task len answer)
        (ReadsOff len rest)
        (suc n)
        (read_with task len answer input (some o) s)
unfolding read_with offload_poll asked ran_by ran set poll left_by answer_of
job-After task len n none rest input (some j) none none waker s h l e = record {
  held = ap (λ k. k ++ input) l ∙ e;
  shape = tt;
}
job-After task len n (some t) rest input (some j) none none waker s h l e =
    value-After task len (some t) n rest (read t j input).1 (read t j input).0 _ _ s l
      (read-all t j input ∙ e)
job-After task len n none rest input none (some j) none waker s h l e = record {
  held = ap (λ k. k ++ input) l ∙ e;
  shape = tt;
}
job-After task len n (some t) rest input none (some j) none waker s h l e =
    value-After task len (some t) n rest (read t j input).1 (read t j input).0 _ _ s l
      (read-all t j input ∙ e)
job-After task len n none rest input none none (some v) waker s h l e =
    value-After task len none n rest input v _ _ s l e
job-After task len n (some t) rest input none none (some v) waker s h l e =
    value-After task len (some t) n rest input v _ _ s l e
job-After task len n answer rest input none none none waker s h l e = elim h [ ]
job-After task len n answer rest input none (some j) (some v) waker s h l e = elim h [ ]
job-After task len n answer rest input (some j) none (some v) waker s h l e = elim h [ ]
job-After task len n answer rest input (some j) (some k) value waker s h l e = elim h [ ]

busy-After :
    (task len n : ℕ) (answer : Option Transfer) (rest input : List ℕ)
    (o : Offload ℕ (Result (List ℕ))) (s : Stdin)
    → BusyShape (some o)
    → s.leftover ≡ []
    → busy_bytes (some o) ++ input ≡ rest
    → After
        (read_turn task len answer)
        (ReadsOff len rest)
        (suc n)
        (read_with task len answer input (some o) s)
busy-After task len n answer rest input o s h l e =
    job-After task len n answer rest input o.job o.posted o.state.value o.state.waker s h l e

with-After :
    (task len : ℕ) (answer : Option Transfer) (rest input : List ℕ)
    (busy : Option (Offload ℕ (Result (List ℕ)))) (s : Stdin)
    → BusyShape busy
    → s.leftover ≡ []
    → busy_bytes busy ++ input ≡ rest
    → After
        (read_turn task len answer)
        (ReadsOff len rest)
        2
        (read_with task len answer input busy s)
unfolding read_with offload oneshot
with-After task len answer rest input (some o) s h l e =
    busy-After task len 1 answer rest input o s h l e
with-After task len answer rest input none s h l e =
    let o = offload (at_least_one len) in
    let t = record s { busy = some o } in
    turns-Returns (read_turn task len answer) (ReadsOff len rest) 1 (input, t)
      (subst (After (read_turn task len answer) (ReadsOff len rest) 1)
        (sym (read_turn-empty task len answer input t (ap is_empty l)))
        (busy-After task len 0 answer rest input o t tt l e))

-- A poll of the standard input ends, and an answer takes its bytes off the front of what the tasks have
-- still to get; nothing else takes a byte away, wherever the pool is with a job.
pub poll_read-ReadsOff :
    (task len : ℕ) (answer : Option Transfer) (rest : List ℕ) (s : List ℕ × Stdin)
    → Holds rest s
    → Returns (ReadsOff len rest) (poll_read task len answer s)
unfolding poll_read
poll_read-ReadsOff task len answer rest (input, s) h =
    turns-Returns (read_turn task len answer) (ReadsOff len rest) 2 (input, s) (go s.leftover refl)
  where
    go :
        (l : List ℕ)
        → s.leftover ≡ l
        → After
            (read_turn task len answer)
            (ReadsOff len rest)
            2
            (read_turn task len answer (input, s))
    go [] l =
        subst (After (read_turn task len answer) (ReadsOff len rest) 2)
          (sym (read_turn-empty task len answer input s (ap is_empty l)))
          (with-After task len answer rest input s.busy s h.shape l
            (sym (ap (λ k. k ++ (busy_bytes s.busy ++ input)) l) ∙ h.held))
    go (b ∷ bs) l = left-After task len answer 2 rest input s (ap is_empty l) h
