-- ===== src/Async/Reactor/Armed.antt =====
-- A task that waits on a source of rust_async/reactor.rs is not forgotten.
use rust_base.Base.{
  ℕ, ◌≡◌, ◌≢◌, ◌⊎◌, refl, sym, ◌∙◌, Bool, true, false, Option, none, some, List, [], ◌∷◌, ◌++◌,
  ◌==◌, arith, Bool-cases, inl, inr, All, ap, subst,
}
use rust_base.Io.Pump
use rust_base.Io.Pump.{
  EpollMessagePump, WatchEntry, WatchMode, read, write, read_write, Added, Flags, Callback,
  can_read, can_write, dispatch, watched, callbacks, reads, writes, errored, is_registered,
  register_fd, unregister_fd,
}
use rust_base.Io.Controller.{
  FdWatchController, watch_file_descriptor, stop_watching_file_descriptor, attached,
}
use rust_base.Async.Reactor.{
  Source, new, desired_of, run_arm, is_reported, dispatched, on_event, Event, polls_readable,
  polls_writable, arming, event, calls_back, step, run,
}
use rust_base.Async.Reactor.Interest.{
  settle, mode_of, Coming, Inv, poll_readable-Inv, poll_writable-Inv, call_back-Inv,
}

stop_watching-wake_fd :
    (c : FdWatchController) (p : EpollMessagePump)
    → (stop_watching_file_descriptor c p).2.wake_fd ≡ p.wake_fd
unfolding stop_watching_file_descriptor unregister_fd
stop_watching-wake_fd c p = ground arith

-- The watch after a registration that epoll accepts.
watch_lem :
    (fd watcher : ℕ) (mode : WatchMode) (added : Added) (modified : Bool) (c : FdWatchController)
    (p : EpollMessagePump)
    → is_registered added modified ≡ true
    → mode_of ((watch_file_descriptor fd false mode watcher added modified c p).2.watches fd)
      ≡ some mode
unfolding watch_file_descriptor register_fd attached
watch_lem fd watcher mode added modified c p r = rw r (ground arith)

watch-wake_fd :
    (fd watcher : ℕ) (mode : WatchMode) (added : Added) (modified : Bool) (c : FdWatchController)
    (p : EpollMessagePump)
    → is_registered added modified ≡ true
    → (watch_file_descriptor fd false mode watcher added modified c p).2.wake_fd ≡ p.wake_fd
unfolding watch_file_descriptor register_fd attached
watch-wake_fd fd watcher mode added modified c p r = rw r (stop_watching-wake_fd c p)

-- What the first of the tasks that arm does, they do.
Coming-run :
    (m : Option WatchMode) (io : ℕ) (mode : WatchMode) (arms all : List (ℕ × WatchMode))
    (w w' : Option WatchMode) (due : List Callback)
    → w' ≡ some mode
    → all ≡ (io, mode) ∷ arms
    → Coming m all w due
    → Coming m arms w' due
Coming-run none io mode arms all w w' due e l h = tt
Coming-run (some m) io mode arms all w w' due e l (inl h) =
    inl (ap (settle arms) e ∙ ap (λ l. settle l w) (sym l) ∙ h)
Coming-run (some m) io mode arms all w w' due e l (inr h) = inr h

run_arm-Inv :
    (added : Added) (modified : Bool) (arms : List (ℕ × WatchMode)) (s : Source)
    → is_registered added modified ≡ true
    → s.arms ≡ arms
    → Inv s
    → Inv (run_arm added modified arms s)
unfolding run_arm
run_arm-Inv added modified [] s r e h = h
run_arm-Inv added modified ((io, mode) ∷ arms) s r e h = record {
  apart =
      subst (λ f. (s.fd == f) ≡ false)
        (sym (watch-wake_fd s.fd 0 mode added modified s.controller s.pump r)) h.apart;
  wanted = h.wanted;
  coming =
      Coming-run s.state.armed io mode arms s.arms _ _ s.due
        (watch_lem s.fd 0 mode added modified s.controller s.pump r) e h.coming;
}

-- An event that is reported has a callback.
Coming-event :
    (m : Option WatchMode) (arms : List (ℕ × WatchMode)) (w w' : Option WatchMode)
    (due calls : List Callback)
    → calls ≢ []
    → Coming m arms w due
    → Coming m arms w' (due ++ calls)
Coming-event none arms w w' due calls n h = tt
Coming-event (some m) arms w w' [] calls n h = inr n
Coming-event (some m) arms w w' (c ∷ due) calls n h = inr (λ e. ground arith)

watched-called :
    (fd : ℕ) (f : Flags) (o : Option WatchEntry) (p : EpollMessagePump)
    → is_reported f o ≡ true
    → (watched fd f (λ w. true) o p).0 ≢ []
unfolding watched callbacks
watched-called fd f none p h e = ground arith
watched-called fd f (some w) p h e = ground arith

watched-wake_fd :
    (fd : ℕ) (f : Flags) (o : Option WatchEntry) (p : EpollMessagePump)
    → (watched fd f (λ w. true) o p).1.wake_fd ≡ p.wake_fd
unfolding watched
watched-wake_fd fd f none p = refl
watched-wake_fd fd f (some e) p = ground arith

dispatch-watched :
    (fd : ℕ) (f : Flags) (p : EpollMessagePump)
    → (fd == p.wake_fd) ≡ false
    → dispatch fd f (λ w. true) p ≡ watched fd f (λ w. true) (p.watches fd) p
unfolding dispatch
dispatch-watched fd f p a = rw a refl

dispatched-Inv :
    (s : Source) (d : List Callback × EpollMessagePump)
    → d.1.wake_fd ≡ s.pump.wake_fd
    → d.0 ≢ []
    → Inv s
    → Inv (dispatched d s)
dispatched-Inv s (calls, p) k n h = record {
  apart = subst (λ f. (s.fd == f) ≡ false) (sym k) h.apart;
  wanted = h.wanted;
  coming = Coming-event s.state.armed s.arms _ _ s.due calls n h.coming;
}

on_event-Inv : (f : Flags) (s : Source) → Inv s → Inv (on_event f s)
unfolding on_event
on_event-Inv f s h = elim (Bool-cases (is_reported f (s.pump.watches s.fd))) [
  | inl r ↦
      let w = s.pump.watches s.fd in
      rw r (
        subst (λ d. Inv (dispatched d s)) (sym (dispatch-watched s.fd f s.pump h.apart))
          (dispatched-Inv s (watched s.fd f (λ v. true) w s.pump) (watched-wake_fd s.fd f w s.pump)
            (watched-called s.fd f w s.pump r) h))
  | inr r ↦ rw r h
]

-- The registrations that epoll accepts.
abbrev pub Accepts : Event → Type 0
Accepts (polls_readable io task) = Unit
Accepts (polls_writable io task) = Unit
Accepts (arming added modified) = is_registered added modified ≡ true
Accepts (event f) = Unit
Accepts (calls_back io) = Unit

step-Inv : (e : Event) (s : Source) → Accepts e → Inv s → Inv (step e s)
unfolding step
step-Inv (polls_readable io task) s a h = poll_readable-Inv io task s h
step-Inv (polls_writable io task) s a h = poll_writable-Inv io task s h
step-Inv (arming added modified) s a h = run_arm-Inv added modified s.arms s a refl h
step-Inv (event f) s a h = on_event-Inv f s h
step-Inv (calls_back io) s a h = call_back-Inv io s.due s h

run-Inv : (es : List Event) (s : Source) → All Accepts es → Inv s → Inv (run es s)
unfolding run
run-Inv [] s a h = h
run-Inv (e ∷ es) s (a, as') h = run-Inv es (step e s) as' (step-Inv e s a h)

new-Inv : (fd : ℕ) → fd ≢ 0 → Inv (new fd)
unfolding new Pump.new
new-Inv fd n = record { apart = ground arith; wanted = refl; coming = tt }

-- The watch will be there that the tasks wait for, or the pump is about to call back.
abbrev pub Served : (WatchMode → Bool) → Source → Type 0
Served covers s =
    ((m : WatchMode) × (settle s.arms (mode_of (s.pump.watches s.fd)) ≡ some m) × (covers m ≡ true))
    ⊎ (s.due ≢ [])

Coming-Served :
    (s : Source) (covers : WatchMode → Bool) (o : Option WatchMode) (m : WatchMode)
    → o ≡ some m
    → covers m ≡ true
    → Coming o s.arms (mode_of (s.pump.watches s.fd)) s.due
    → Served covers s
Coming-Served s covers none m e c h = ground arith
Coming-Served s covers (some k) m e c (inl h) = inl (m, h ∙ e, c)
Coming-Served s covers (some k) m e c (inr h) = inr h

abbrev pub ServedFor : Option ℕ → (WatchMode → Bool) → Source → Type 0
ServedFor none covers s = Unit
ServedFor (some task) covers s = Served covers s

desired-reads :
    (r : ℕ) (w : Option ℕ) → (m : WatchMode) × ((desired_of (some r) w ≡ some m) × (reads m ≡ true))
desired-reads r none = (read, (refl, refl))
desired-reads r (some w) = (read_write, (refl, refl))

desired-writes :
    (r : Option ℕ) (w : ℕ)
    → (m : WatchMode) × ((desired_of r (some w) ≡ some m) × (writes m ≡ true))
desired-writes none w = (write, (refl, refl))
desired-writes (some r) w = (read_write, (refl, refl))

Inv-reads : (s : Source) (r : Option ℕ) → s.state.read_waker ≡ r → Inv s → ServedFor r reads s
Inv-reads s none e h = tt
Inv-reads s (some t) e h =
    let d = desired-reads t s.state.write_waker in
    Coming-Served s reads s.state.armed d.0
      (h.wanted ∙ ap (λ r. desired_of r s.state.write_waker) e ∙ d.1.0) d.1.1 h.coming

Inv-writes : (s : Source) (w : Option ℕ) → s.state.write_waker ≡ w → Inv s → ServedFor w writes s
Inv-writes s none e h = tt
Inv-writes s (some t) e h =
    let d = desired-writes s.state.read_waker t in
    Coming-Served s writes s.state.armed d.0
      (h.wanted ∙ ap (desired_of s.state.read_waker) e ∙ d.1.0) d.1.1 h.coming

-- If epoll accepts every registration, then at any time a task that waits on the source to be readable
-- (or writable) is served: once the tasks that arm have run the pump watches the descriptor in a mode
-- that covers it, or a callback of the source is about to be made.
pub run-armed :
    (es : List Event) (fd : ℕ)
    → fd ≢ 0
    → All Accepts es
    → let s = run es (new fd) in
      ServedFor s.state.read_waker reads s × ServedFor s.state.write_waker writes s
run-armed es fd n a =
    let s = run es (new fd) in
    let h = run-Inv es (new fd) a (new-Inv fd n) in
    (Inv-reads s s.state.read_waker refl h, Inv-writes s s.state.write_waker refl h)
