-- ===== src/Sync/RwLock/Step.antt =====
-- A guard that is dropped, and every event of the clients.
use rust_base.Base.{
  ℕ, suc, ◌-◌, ◌≡◌, refl, sym, subst, Bool, true, false, not, ◌&&◌, none, some, List, [], ◌∷◌,
  length, ◌==◌, update, arith, inl, inr, Option-cases,
}
use rust_base.Sync.Waiters
use rust_base.Sync.Tracked.{woken, default-Tracked, wake_all-Tracked, same-Tracked}
use rust_base.Sync.RwLock.{
  new, read_guard_drop, write_guard_drop, Client, absent, reading, writing, exclusive, World, start,
  Event, read, write, poll, cancel, drop_read_guard, drop_write_guard, without, unshare, act,
  client_of, run,
}
use rust_base.Sync.RwLock.Invariant.{
  Sound, length-without, keep-Guards, read_polled-Sound, write_polled-Sound, come-Sound,
  cancel_read-Sound, cancel_write-Sound,
}

module _ (w : World) (x : Sound w) where
  counted_down :
      (rest : List ℕ)
      → length w.shared ≡ suc (length rest)
      → (w.inner.readers - 1 ≡ length rest) × (w.inner.writer ≡ false)
  counted_down rest e =
      let n = x.guards.counted in let a = x.guards.alone in (omega arith, ground arith)

  read_guard_drop-Sound :
      (rest : List ℕ) (b : Bool)
      → length w.shared ≡ suc (length rest)
      → (w.inner.readers - 1 == 0) ≡ b
      → Sound (unshare w (some rest))
  unfolding unshare read_guard_drop Waiters.wake_all
  read_guard_drop-Sound rest true e l =
      let (n, free) = counted_down rest e in
      rw (l, unshare, read_guard_drop)
        (record {
          guards = keep-Guards w x _ (λ g p. p) (λ g p. p) refl n (λ p. absurd (ground arith));
          parked = record {
            readers = same-Tracked x.parked.readers _ _ (λ g. refl) (λ g k p h. ground arith);
            writers = wake_all-Tracked x.parked.writers _ (λ g h. h);
            no_reader = x.parked.no_reader;
            no_writer = λ p q. refl;
          };
        })
  read_guard_drop-Sound rest false e l =
      let (n, free) = counted_down rest e in
      rw (l, unshare, read_guard_drop)
        (record {
          guards = keep-Guards w x _ (λ g p. p) (λ g p. p) refl n (λ p. absurd (ground arith));
          parked = record {
            readers = same-Tracked x.parked.readers _ _ (λ g. refl) (λ g k p h. h);
            writers = same-Tracked x.parked.writers _ _ (λ g. refl) (λ g k p h. h);
            no_reader = x.parked.no_reader;
            no_writer = λ p q. absurd (ground arith);
          };
        })

  unshare-Sound : (f : ℕ) → Sound (unshare w (without f w.shared))
  unfolding unshare
  unshare-Sound f = elim (Option-cases (without f w.shared)) [
    | inl e ↦ rw (e, unshare) x
    | inr (rest, e) ↦ rw (e) (
        read_guard_drop-Sound rest (w.inner.readers - 1 == 0) (length-without f w.shared rest e)
          refl)
  ]

  drop_write_guard-Sound :
      (f : ℕ) → w.clients f ≡ exclusive → Sound (act (drop_write_guard f) exclusive w)
  unfolding act write_guard_drop Waiters.wake_all
  drop_write_guard-Sound f e = record {
    guards = record {
      counted = x.guards.counted;
      alone = λ p. absurd cc;
      held = λ g p. absurd (gone g p);
      holder = λ p. absurd cc;
      unique = λ g h p q. absurd (gone g p);
    };
    parked = record {
      readers =
          same-Tracked
            (wake_all-Tracked x.parked.readers
              (woken (Waiters.wake_all w.inner.read_waiters).0 w.runnable) (λ g h. h))
            _ _ (λ g. ground arith) (λ g k p h. ground arith);
      writers =
          same-Tracked
            (wake_all-Tracked x.parked.writers
              (woken (Waiters.wake_all w.inner.write_waiters).0 w.runnable) (λ g h. h))
            _ _ (λ g. ground arith) (λ g k p h. ground arith);
      no_reader = λ p. refl;
      no_writer = λ p q. refl;
    };
  }
    where
      gone : (g : ℕ) → ¬ update w.clients f absent g ≡ exclusive
      gone g p = let q = x.guards.unique f g e in ground arith

  act-Sound :
      (f : ℕ) (e : Event) (c : Client) → client_of e ≡ f → w.clients f ≡ c → Sound (act e c w)
  unfolding act
  act-Sound f (read g) absent h e =
      subst (λ k. Sound (act (read k) absent w)) (sym h)
        (come-Sound w x f (reading none) e refl refl (λ p. cc))
  act-Sound f (write g) absent h e =
      subst (λ k. Sound (act (write k) absent w)) (sym h)
        (come-Sound w x f (writing none) e refl refl (λ p. cc))
  act-Sound f (poll g) (reading id) h e =
      subst (λ k. Sound (act (poll k) (reading id) w)) (sym h)
        (read_polled-Sound w x f id w.inner.writer e refl)
  act-Sound f (poll g) (writing id) h e =
      subst (λ k. Sound (act (poll k) (writing id) w)) (sym h)
        (write_polled-Sound w x f id (not w.inner.writer && w.inner.readers == 0) e refl)
  act-Sound f (cancel g) (reading id) h e =
      subst (λ k. Sound (act (cancel k) (reading id) w)) (sym h) (cancel_read-Sound w x f id e)
  act-Sound f (cancel g) (writing id) h e =
      subst (λ k. Sound (act (cancel k) (writing id) w)) (sym h) (cancel_write-Sound w x f id e)
  act-Sound f (drop_write_guard g) exclusive h e =
      subst (λ k. Sound (act (drop_write_guard k) exclusive w)) (sym h) (drop_write_guard-Sound f e)
  act-Sound f (drop_read_guard g) absent h e = unshare-Sound g
  act-Sound f (drop_read_guard g) (reading id) h e = unshare-Sound g
  act-Sound f (drop_read_guard g) (writing id) h e = unshare-Sound g
  act-Sound f (drop_read_guard g) exclusive h e = unshare-Sound g
  act-Sound f (read g) (reading id) h e = x
  act-Sound f (read g) (writing id) h e = x
  act-Sound f (read g) exclusive h e = x
  act-Sound f (write g) (reading id) h e = x
  act-Sound f (write g) (writing id) h e = x
  act-Sound f (write g) exclusive h e = x
  act-Sound f (poll g) absent h e = x
  act-Sound f (poll g) exclusive h e = x
  act-Sound f (cancel g) absent h e = x
  act-Sound f (cancel g) exclusive h e = x
  act-Sound f (drop_write_guard g) absent h e = x
  act-Sound f (drop_write_guard g) (reading id) h e = x
  act-Sound f (drop_write_guard g) (writing id) h e = x

pub run-Sound : (es : List Event) (w : World) → Sound w → Sound (run es w)
unfolding run
run-Sound [] w x = x
run-Sound (e ∷ es) w x =
    run-Sound es (act e (w.clients (client_of e)) w)
      (act-Sound w x (client_of e) e (w.clients (client_of e)) refl refl)

pub start-Sound : Sound start
unfolding start new
start-Sound = record {
  guards = record {
    counted = refl;
    alone = λ p. refl;
    held = λ f p. absurd cc;
    holder = λ p. absurd cc;
    unique = λ f g p q. absurd cc;
  };
  parked = record {
    readers = default-Tracked (λ f. true);
    writers = default-Tracked (λ f. true);
    no_reader = λ p. refl;
    no_writer = λ p q. refl;
  };
}
