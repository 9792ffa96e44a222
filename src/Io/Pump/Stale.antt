-- ===== src/Io/Pump/Stale.antt =====
-- A generation of rust_io/epoll_pump.rs whose watch was removed or replaced.
use rust_base.Base.{
  ℕ, ◌<◌, ◌≡◌, refl, Bool, true, false, Option, none, some, List, [], ◌∷◌, ◌==◌, arith, Bool-cases,
  inl, inr, update,
}
use rust_base.Io.Pump.{
  EpollMessagePump, WatchMode, WatchEntry, Added, Flags, has_generation, register_fd, unregister_fd,
  dispatch, watched, schedule_work, set_quit, is_registered, remove,
}
use rust_base.Io.Pump.Events.{Event, register, unregister, event, signal, quits, step, run}

-- The generation was given out, and is not that of the watch on the descriptor.
pub record Stale (fd g : ℕ) (p : EpollMessagePump) : Type 0 where
  pub old : g < p.generation_counter
  pub gone : has_generation g (p.watches fd) ≡ false

module _ (fd g : ℕ) where
  update-gone :
      (f : ℕ) (o : Option WatchEntry) (w : ℕ → Option WatchEntry)
      → has_generation g (w fd) ≡ false
      → has_generation g o ≡ false
      → has_generation g (update w f o fd) ≡ false
  update-gone f o w h k = ground arith

  register_fd-Stale :
      (f : ℕ) (persistent : Bool) (mode : WatchMode) (watcher : ℕ) (added : Added) (modified : Bool)
      (p : EpollMessagePump)
      → Stale fd g p
      → Stale fd g (register_fd f persistent mode watcher added modified p).1
  unfolding register_fd
  register_fd-Stale f persistent mode watcher added modified p s =
      elim (Bool-cases (is_registered added modified)) [
        | inl e ↦ rw e (record {
          old = omega (arith, s.old);
          gone = update-gone f _ p.watches s.gone (ground (arith, s.old));
        })
        | inr e ↦ rw e (record { old = omega (arith, s.old); gone = s.gone })
      ]

  remove-Stale : (f : ℕ) (p : EpollMessagePump) → Stale fd g p → Stale fd g (remove f p)
  remove-Stale f p s = record { old = s.old; gone = update-gone f none p.watches s.gone refl }

  unregister_fd-Stale :
      (f h : ℕ) (p : EpollMessagePump) → Stale fd g p → Stale fd g (unregister_fd f h p).1
  unfolding unregister_fd
  unregister_fd-Stale f h p s = elim (Bool-cases (has_generation h (p.watches f))) [
    | inl e ↦ rw e (remove-Stale f p s)
    | inr e ↦ rw e s
  ]

  watched-Stale :
      (f : ℕ) (flags : Flags) (alive : ℕ → Bool) (o : Option WatchEntry) (p : EpollMessagePump)
      → Stale fd g p
      → Stale fd g (watched f flags alive o p).1
  unfolding watched
  watched-Stale f flags alive none p s = s
  watched-Stale f flags alive (some e) p s = elim (Bool-cases e.persistent) [
    | inl h ↦ rw h s
    | inr h ↦ rw h (remove-Stale f p s)
  ]

  dispatch-Stale :
      (f : ℕ) (flags : Flags) (alive : ℕ → Bool) (p : EpollMessagePump)
      → Stale fd g p
      → Stale fd g (dispatch f flags alive p).1
  unfolding dispatch
  dispatch-Stale f flags alive p s = elim (Bool-cases (f == p.wake_fd)) [
    | inl e ↦ rw e (record { old = s.old; gone = s.gone })
    | inr e ↦ rw e (watched-Stale f flags alive (p.watches f) p s)
  ]

  step-Stale : (e : Event) (p : EpollMessagePump) → Stale fd g p → Stale fd g (step e p)
  unfolding step schedule_work set_quit
  step-Stale (register f persistent mode watcher added modified) p s =
      register_fd-Stale f persistent mode watcher added modified p s
  step-Stale (unregister f h) p s = unregister_fd-Stale f h p s
  step-Stale (event f flags alive) p s = dispatch-Stale f flags alive p s
  step-Stale signal p s = record { old = s.old; gone = s.gone }
  step-Stale quits p s = record { old = s.old; gone = s.gone }

  run-Stale : (es : List Event) (p : EpollMessagePump) → Stale fd g p → Stale fd g (run es p)
  unfolding run
  run-Stale [] p s = s
  run-Stale (e ∷ es) p s = run-Stale es (step e p) (step-Stale e p s)

-- A registration that replaces the watch of an earlier generation on the same descriptor leaves that
-- generation powerless: whatever follows, `unregister_fd` with it removes no watch.
pub run-stale :
    (es : List Event) (fd g watcher : ℕ) (persistent modified : Bool) (mode : WatchMode)
    (added : Added) (p : EpollMessagePump)
    → g < p.generation_counter
    → is_registered added modified ≡ true
    → let q = run es (register_fd fd persistent mode watcher added modified p).1 in
      unregister_fd fd g q ≡ (false, q)
unfolding unregister_fd
run-stale es fd g watcher persistent modified mode added p h k =
    rw (run-Stale fd g es _ (replaced k)).gone refl
  where
    replaced :
        is_registered added modified ≡ true
        → Stale fd g (register_fd fd persistent mode watcher added modified p).1
    replaced e = unfold register_fd in rw e (record { old = omega (arith, h); gone = ground arith })
