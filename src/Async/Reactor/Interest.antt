-- ===== src/Async/Reactor/Interest.antt =====
-- The interest of a source of rust_async/reactor.rs is what its tasks wait for.
use rust_base.Base.{
  ℕ, ◌≡◌, ◌≢◌, ◌⊎◌, refl, sym, ◌∙◌, Bool, true, false, Option, none, some, List, [], ◌∷◌, ◌++◌,
  if◌then◌else◌, ◌==◌, arith, Bool-cases, inl, inr,
}
use rust_base.Sync.{Poll}
use rust_base.Io.Pump.{
  WatchEntry, WatchMode, read, write, read_write, Callback, can_read, can_write,
}
use rust_base.Async.Reactor.{
  Source, desired_of, same_mode, or_insert, arm_desired, update_arm, poll_readable, poll_writable,
  wake, on_file_can_read, on_file_can_write, call_back,
}

-- The mode of the watch when the tasks that arm have run.
abbrev pub settle : List (ℕ × WatchMode) → Option WatchMode → Option WatchMode
settle [] w = w
settle (a ∷ arms) w = settle arms (some a.1)

settle-append :
    (arms : List (ℕ × WatchMode)) (io : ℕ) (m : WatchMode) (w : Option WatchMode)
    → settle (arms ++ (io, m) ∷ []) w ≡ some m
settle-append [] io m w = refl
settle-append (a ∷ arms) io m w = settle-append arms io m (some a.1)

abbrev pub mode_of : Option WatchEntry → Option WatchMode
mode_of none = none
mode_of (some e) = some e.mode

-- The watch that is to come is the one that the source wants, or the pump is about to call back.
abbrev pub Coming :
    Option WatchMode → List (ℕ × WatchMode) → Option WatchMode → List Callback → Type 0
Coming none arms w due = Unit
Coming (some m) arms w due = (settle arms w ≡ some m) ⊎ (due ≢ [])

abbrev pub ComingTo : Source → Type 0
ComingTo s = Coming s.state.armed s.arms (mode_of (s.pump.watches s.fd)) s.due

pub record Inv (s : Source) : Type 0 where
  pub apart : (s.fd == s.pump.wake_fd) ≡ false
  pub wanted : s.state.armed ≡ desired_of s.state.read_waker s.state.write_waker
  pub coming : ComingTo s

same_mode-eq : (a b : Option WatchMode) → same_mode a b ≡ true → a ≡ b
same_mode-eq none none h = refl
same_mode-eq (some read) (some read) h = refl
same_mode-eq (some write) (some write) h = refl
same_mode-eq (some read_write) (some read_write) h = refl
same_mode-eq none (some m) h = ground arith
same_mode-eq (some read) none h = ground arith
same_mode-eq (some write) none h = ground arith
same_mode-eq (some read_write) none h = ground arith
same_mode-eq (some read) (some write) h = ground arith
same_mode-eq (some read) (some read_write) h = ground arith
same_mode-eq (some write) (some read) h = ground arith
same_mode-eq (some write) (some read_write) h = ground arith
same_mode-eq (some read_write) (some read) h = ground arith
same_mode-eq (some read_write) (some write) h = ground arith

-- Whatever the wakers are, the interest is brought in line with them.
update_arm-Inv :
    (io : ℕ) (s : Source) → (s.fd == s.pump.wake_fd) ≡ false → ComingTo s → Inv (update_arm io s)
unfolding update_arm
update_arm-Inv io s a c = go (desired_of s.state.read_waker s.state.write_waker) refl
  where
    armed-Inv :
        (d : Option WatchMode)
        → d ≡ desired_of s.state.read_waker s.state.write_waker
        → Inv (arm_desired io d (record s { state = record s.state { armed = d } }))
    armed-Inv none e = record { apart = a; wanted = e; coming = tt }
    armed-Inv (some m) e = record {
      apart = a;
      wanted = e;
      coming = inl (settle-append s.arms (or_insert io s.state.reactor) m _);
    }

    go :
        (d : Option WatchMode)
        → d ≡ desired_of s.state.read_waker s.state.write_waker
        → Inv (
            if same_mode d s.state.armed
            then s
            else arm_desired io d (record s { state = record s.state { armed = d } }))
    go d e = elim (Bool-cases (same_mode d s.state.armed)) [
      | inl h ↦
          rw h (record { apart = a; wanted = sym (same_mode-eq d s.state.armed h) ∙ e; coming = c })
      | inr h ↦ rw h (armed-Inv d e)
    ]

wake-Inv : (o : Option ℕ) (s : Source) → Inv s → Inv (wake o s)
wake-Inv none s h = h
wake-Inv (some t) s h = record { apart = h.apart; wanted = h.wanted; coming = h.coming }

if-Inv : (b : Bool) (x y : Poll Unit × Source) → Inv x.1 → Inv y.1 → Inv (if b then x else y).1
if-Inv true x y h k = h
if-Inv false x y h k = k

pub poll_readable-Inv : (io task : ℕ) (s : Source) → Inv s → Inv (poll_readable io task s).1
unfolding poll_readable
poll_readable-Inv io task s h =
    if-Inv s.state.read_ready _ _ (record { apart = h.apart; wanted = h.wanted; coming = h.coming })
      (update_arm-Inv io (record s { state = record s.state { read_waker = some task } }) h.apart
        h.coming)

pub poll_writable-Inv : (io task : ℕ) (s : Source) → Inv s → Inv (poll_writable io task s).1
unfolding poll_writable
poll_writable-Inv io task s h =
    if-Inv s.state.write_ready _ _
      (record { apart = h.apart; wanted = h.wanted; coming = h.coming })
      (update_arm-Inv io (record s { state = record s.state { write_waker = some task } }) h.apart
        h.coming)

-- A callback brings everything in line, whatever was there.
pub call_back-Inv : (io : ℕ) (due : List Callback) (s : Source) → Inv s → Inv (call_back io due s)
unfolding call_back on_file_can_read on_file_can_write
call_back-Inv io [] s h = h
call_back-Inv io (can_read w fd ∷ due) s h = wake-Inv s.state.read_waker _ (
    update_arm-Inv io
      (record s {
        due = due;
        state = record s.state { armed = none; read_ready = true; read_waker = none };
      })
      h.apart tt)
call_back-Inv io (can_write w fd ∷ due) s h = wake-Inv s.state.write_waker _ (
    update_arm-Inv io
      (record s {
        due = due;
        state = record s.state { armed = none; write_ready = true; write_waker = none };
      })
      h.apart tt)
