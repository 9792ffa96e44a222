-- ===== src/Sync/Condvar/Invariant.antt =====
-- What the steps of a condition variable, of its mutex and of their clients keep.
use rust_base.Base.{ℕ, ◌≡◌, refl, sym, ◌∙◌, Bool, true, false, Option, none, [], update, arith}
use rust_base.Sync.Waiters
use rust_base.Sync.Waiters.{Waiters}
use rust_base.Sync.Mutex
use rust_base.Sync.Mutex.{MutexInner}
use rust_base.Sync.Tracked.{
  Tracked, woken, park-Tracked, unpark-Tracked, wake_all-Tracked, fewer-Tracked,
}
use rust_base.Sync.Condvar.{
  Client, locking, holding, waits, init, waiting, relocking, World, locked_by, unlocked,
}

-- Whether the client has the guard, on its own or within a future of `wait`.
abbrev pub has_guard : Client → Bool
has_guard holding = true
has_guard (waits id init) = true
has_guard _ = false

abbrev pub lock_id : Client → Option ℕ
lock_id (locking id) = id
lock_id (waits id (relocking l)) = l
lock_id _ = none

-- Once notified, the future has none.
abbrev pub wait_id : Client → Option ℕ
wait_id (waits id init) = id
wait_id (waits id waiting) = id
wait_id _ = none

pub record Guards (locked : Bool) (clients : ℕ → Client) : Type 0 where
  pub held : (f : ℕ) → has_guard (clients f) ≡ true → locked ≡ true
  pub unique : (f g : ℕ) → has_guard (clients f) ≡ true → has_guard (clients g) ≡ true → f ≡ g

pub record Sound (w : World) : Type 0 where
  pub guards : Guards w.mutex.locked w.clients
  pub for_lock : Tracked w.mutex.waiters (λ f. lock_id (w.clients f)) w.runnable
  pub for_notice : Tracked w.condvar (λ f. wait_id (w.clients f)) w.runnable
  pub nobody_parked : w.mutex.locked ≡ false → w.mutex.waiters.map ≡ []

module _ {locked : Bool} {clients : ℕ → Client} (x : Guards locked clients) (f : ℕ)
    (c : Client) where
  pub keep-Guards : has_guard c ≡ has_guard (clients f) → Guards locked (update clients f c)
  keep-Guards e = record {
    held = λ g p. ground (arith, x.held g, x.held f);
    unique = λ g h p q. ground (arith, x.unique g h, x.unique f h, x.unique g f);
  }

  pub take-Guards : locked ≡ false → Guards true (update clients f c)
  take-Guards e = record {
    held = λ g p. refl;
    unique = λ g h p q. ground (arith, x.held g, x.held h);
  }

  pub drop-Guards :
      has_guard c ≡ false → has_guard (clients f) ≡ true → Guards false (update clients f c)
  drop-Guards e d = record {
    held = λ g p. absurd (ground (arith, x.unique f g));
    unique = λ g h p q. ground (arith, x.unique f g);
  }

module _ (w : World) (x : Sound w) (f : ℕ) where
  -- A future of `lock` is polled, alone or within a future of `wait` that was notified.
  pub locked_by-Sound :
      (condvar : Waiters) (again : Option ℕ → Client) (id : Option ℕ) (b : Bool)
      → Tracked condvar (update (λ g. wait_id (w.clients g)) f none) w.runnable
      → lock_id (w.clients f) ≡ id
      → has_guard (w.clients f) ≡ false
      → ((l : Option ℕ) → lock_id (again l) ≡ l)
      → ((l : Option ℕ) → has_guard (again l) ≡ false)
      → ((l : Option ℕ) → wait_id (again l) ≡ none)
      → w.mutex.locked ≡ b
      → Sound (locked_by f again (record w { condvar = condvar }) (Mutex.lock_poll id f w.mutex))
  unfolding locked_by Mutex.lock_poll
  locked_by-Sound condvar again id true y e n al ag aw l =
      rw (l, locked_by, Mutex.lock_poll)
        (record {
          guards = rw⁻¹ l (keep-Guards x.guards f _ (ag _ ∙ sym n));
          for_lock =
              park-Tracked x.for_lock f id _ _ e
                (λ g. ground (arith, al (Waiters.park id f w.mutex.waiters).0))
                (λ g h. ground arith);
          for_notice =
              fewer-Tracked y _ _
                (λ g k p. ground (arith, aw (Waiters.park id f w.mutex.waiters).0))
                (λ g k p q. ground (arith, aw (Waiters.park id f w.mutex.waiters).0));
          nobody_parked = λ p. absurd cc;
        })
  locked_by-Sound condvar again id false y e n al ag aw l =
      rw (l, locked_by, Mutex.lock_poll)
        (record {
          guards = take-Guards x.guards f holding l;
          for_lock = unpark-Tracked x.for_lock f id _ _ e (λ g. ground arith) (λ g h. refl);
          for_notice = fewer-Tracked y _ _ (λ g k p. ground arith) (λ g k p q. q);
          nobody_parked = λ p. absurd cc;
        })

  -- A guard is dropped.
  pub unlocked-Sound :
      (c : Client)
      → has_guard c ≡ false
      → lock_id c ≡ none
      → wait_id c ≡ none
      → has_guard (w.clients f) ≡ true
      → Sound (unlocked f c w)
  unfolding unlocked Mutex.guard_drop Waiters.wake_all
  unlocked-Sound c n l v e = record {
    guards = drop-Guards x.guards f c n e;
    for_lock =
        fewer-Tracked
          (wake_all-Tracked x.for_lock (woken (Waiters.wake_all w.mutex.waiters).0 w.runnable)
            (λ g h. h))
          _ _ (λ g k p. ground arith) (λ g k p h. h);
    for_notice = fewer-Tracked x.for_notice _ _ (λ g k p. ground arith) (λ g k p h. ground arith);
    nobody_parked = λ p. refl;
  }
