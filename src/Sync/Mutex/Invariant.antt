-- ===== src/Sync/Mutex/Invariant.antt =====
-- What every step of the mutex and of its clients keeps.
use rust_base.Base.{
  ℕ, ◌≡◌, ◌≢◌, refl, ap, sym, ◌∙◌, Bool, true, false, Option, none, List, [], ◌∷◌, update, arith,
  subst,
}
use rust_base.Sync.Waiters
use rust_base.Sync.Tracked.{
  Tracked, woken, default-Tracked, park-Tracked, unpark-Tracked, wake_all-Tracked, same-Tracked,
}
use rust_base.Sync.Mutex.{
  new, try_lock, lock_poll, lock_drop, guard_drop, Client, absent, locking, holding, World, start,
  Event, lock, try, poll, cancel, release, polled, tried, act, client_of, run,
}

abbrev pub id_of : Client → Option ℕ
id_of (locking id) = id
id_of _ = none

abbrev pub ids : World → ℕ → Option ℕ
ids w f = id_of (w.clients f)

pub record Sound (w : World) : Type 0 where
  pub tracked : Tracked w.inner.waiters (ids w) w.runnable
  pub nobody_parked : w.inner.locked ≡ false → w.inner.waiters.map ≡ []
  pub held : (f : ℕ) → w.clients f ≡ holding → w.inner.locked ≡ true
  pub holder : w.inner.locked ≡ true → (f : ℕ) × (w.clients f ≡ holding)
  pub unique : (f g : ℕ) → w.clients f ≡ holding → w.clients g ≡ holding → f ≡ g

module _ (w : World) (x : Sound w) (f : ℕ) where
  -- A future or a guard goes, or a future comes, while the flag stays as it is.
  idle-Sound :
      (c : Client) (w' : World)
      → w'.clients ≡ update w.clients f c
      → w'.inner.locked ≡ w.inner.locked
      → (w.inner.locked ≡ false → w'.inner.waiters.map ≡ [])
      → c ≢ holding
      → w.clients f ≢ holding
      → Tracked w'.inner.waiters (ids w') w'.runnable
      → Sound w'
  idle-Sound c w' e l m n k t = record {
    tracked = t;
    nobody_parked = λ p. m (sym l ∙ p);
    held = λ g p. l ∙ x.held g (kept g p);
    holder = λ p. let (g, q) = x.holder (sym l ∙ p) in (g, still g q);
    unique = λ g h p q. x.unique g h (kept g p) (kept h q);
  }
    where
      kept : (g : ℕ) → w'.clients g ≡ holding → w.clients g ≡ holding
      kept g p = let q = ap (λ (m : ℕ → Client). m g) e in ground arith

      still : (g : ℕ) → w.clients g ≡ holding → w'.clients g ≡ holding
      still g p = let q = ap (λ (m : ℕ → Client). m g) e in ground arith

  -- The client gets the guard.
  take-Sound :
      (w' : World)
      → w'.clients ≡ update w.clients f holding
      → w.inner.locked ≡ false
      → w'.inner.locked ≡ true
      → Tracked w'.inner.waiters (ids w') w'.runnable
      → Sound w'
  take-Sound w' e l l' t = record {
    tracked = t;
    nobody_parked = λ p. absurd cc;
    held = λ g p. l';
    holder = λ p. (f, let q = ap (λ (m : ℕ → Client). m f) e in ground arith);
    unique = λ g h p q. ground (arith, only g p, only h q);
  }
    where
      only : (g : ℕ) → w'.clients g ≡ holding → f ≡ g
      only g p = let q = ap (λ (m : ℕ → Client). m g) e in let r = x.held g in ground arith

  polled-Sound :
      (id : Option ℕ) (b : Bool)
      → w.clients f ≡ locking id
      → w.inner.locked ≡ b
      → Sound (polled f w (lock_poll id f w.inner))
  unfolding polled lock_poll
  polled-Sound id true e l =
      rw (l, polled, lock_poll)
        (idle-Sound (locking (Waiters.park id f w.inner.waiters).0) _ refl (sym l) (λ p. absurd cc)
          (λ p. cc) (λ p. cc)
          (park-Tracked x.tracked f id _ _ (ap id_of e) (λ g. ground arith) (λ g h. ground arith)))
  polled-Sound id false e l =
      rw (l, polled, lock_poll)
        (take-Sound _ refl l refl
          (unpark-Tracked x.tracked f id _ _ (ap id_of e) (λ g. ground arith) (λ g h. refl)))

  tried-Sound :
      (b : Bool) → w.clients f ≡ absent → w.inner.locked ≡ b → Sound (tried f w (try_lock w.inner))
  unfolding tried try_lock
  tried-Sound true e l = rw (l, tried, try_lock) x
  tried-Sound false e l =
      rw (l, tried, try_lock)
        (take-Sound _ refl l refl (same-Tracked x.tracked _ _ (λ g. ground arith) (λ g k p h. h)))

  cancel-Sound : (id : Option ℕ) → w.clients f ≡ locking id → Sound (act (cancel f) (locking id) w)
  unfolding act lock_drop
  cancel-Sound id e =
      idle-Sound absent _ refl refl
        (λ l. Waiters.unpark-empty w.inner.waiters id (x.nobody_parked l)) (λ p. cc) (λ p. cc)
        (unpark-Tracked x.tracked f id _ _ (ap id_of e) (λ g. ground arith) (λ g h. refl))

  release-Sound : w.clients f ≡ holding → Sound (act (release f) holding w)
  unfolding act guard_drop Waiters.wake_all
  release-Sound e = record {
    tracked =
        same-Tracked
          (wake_all-Tracked x.tracked (woken (Waiters.wake_all w.inner.waiters).0 w.runnable)
            (λ g h. h))
          _ _ (λ g. ground arith) (λ g k p h. h);
    nobody_parked = λ p. refl;
    held = λ g p. absurd (alone g p);
    holder = λ p. absurd cc;
    unique = λ g h p q. absurd (alone g p);
  }
    where
      alone : (g : ℕ) → ¬ update w.clients f absent g ≡ holding
      alone g p = let q = x.unique f g e in ground arith

  act-Sound : (e : Event) (c : Client) → client_of e ≡ f → w.clients f ≡ c → Sound (act e c w)
  unfolding act
  act-Sound (lock g) absent h e =
      subst (λ k. Sound (act (lock k) absent w)) (sym h)
        (idle-Sound (locking none) _ refl refl x.nobody_parked (λ p. cc) (λ p. cc)
          (same-Tracked x.tracked _ _ (λ g. ground arith) (λ g k p h. ground arith)))
  act-Sound (try g) absent h e =
      subst (λ k. Sound (act (try k) absent w)) (sym h) (tried-Sound w.inner.locked e refl)
  act-Sound (poll g) (locking id) h e =
      subst (λ k. Sound (act (poll k) (locking id) w)) (sym h)
        (polled-Sound id w.inner.locked e refl)
  act-Sound (cancel g) (locking id) h e =
      subst (λ k. Sound (act (cancel k) (locking id) w)) (sym h) (cancel-Sound id e)
  act-Sound (release g) holding h e =
      subst (λ k. Sound (act (release k) holding w)) (sym h) (release-Sound e)
  act-Sound (lock g) (locking id) h e = x
  act-Sound (lock g) holding h e = x
  act-Sound (try g) (locking id) h e = x
  act-Sound (try g) holding h e = x
  act-Sound (poll g) absent h e = x
  act-Sound (poll g) holding h e = x
  act-Sound (cancel g) absent h e = x
  act-Sound (cancel g) holding h e = x
  act-Sound (release g) absent h e = x
  act-Sound (release g) (locking id) h e = x

pub run-Sound : (es : List Event) (w : World) → Sound w → Sound (run es w)
unfolding run
run-Sound [] w x = x
run-Sound (e ∷ es) w x =
    run-Sound es (act e (w.clients (client_of e)) w)
      (act-Sound w x (client_of e) e (w.clients (client_of e)) refl refl)

pub start-Sound : Sound start
unfolding start new
start-Sound = record {
  tracked = default-Tracked (λ f. true);
  nobody_parked = λ p. refl;
  held = λ f p. absurd cc;
  holder = λ p. absurd cc;
  unique = λ f g p q. absurd cc;
}
