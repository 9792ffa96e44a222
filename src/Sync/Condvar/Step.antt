-- ===== src/Sync/Condvar/Step.antt =====
-- Every event of a condition variable, of its mutex and of their clients.
use rust_base.Base.{
  ℕ, ◌≡◌, refl, ap, sym, ◌∙◌, subst, Bool, true, false, Option, none, List, [], ◌∷◌, update, arith,
}
use rust_base.Sync.Waiters
use rust_base.Sync.Waiters.{Waiters}
use rust_base.Sync.Mutex
use rust_base.Sync.Mutex.{MutexInner}
use rust_base.Sync.Tracked.{
  Tracked, woken, park-Tracked, unpark-Tracked, wake_all-Tracked, same-Tracked, fewer-Tracked,
}
use rust_base.Sync.Condvar.{
  Client, absent, locking, holding, waits, WaitState, init, waiting, relocking, World, unlocked,
  wait_poll, wait_drop,
}
use rust_base.Sync.Tracked.{default-Tracked, wake_one-Tracked}
use rust_base.Sync.Condvar.{
  start, Event, lock, wait, poll, cancel, release, notify_one, notify_all, notified, act, client_of,
  run,
}
use rust_base.Sync.Condvar.Invariant.{
  has_guard, lock_id, wait_id, Guards, Sound, keep-Guards, drop-Guards, locked_by-Sound,
  unlocked-Sound,
}

module _ (w : World) (x : Sound w) (f : ℕ) where
  -- The client turns to something that changes neither the guards nor the wait sets.
  turn-Sound :
      (c : Client) (mutex : MutexInner) (runnable' : ℕ → Bool)
      → has_guard c ≡ has_guard (w.clients f)
      → mutex.locked ≡ w.mutex.locked
      → (w.mutex.locked ≡ false → mutex.waiters.map ≡ [])
      → wait_id c ≡ none
      → ((g : ℕ) → w.runnable g ≡ true → runnable' g ≡ true)
      → Tracked mutex.waiters (λ g. lock_id (update w.clients f c g)) runnable'
      → Sound (record w { mutex = mutex; clients = update w.clients f c; runnable = runnable' })
  turn-Sound c mutex runnable' n l m v r t = record {
    guards = subst (λ b. Guards b (update w.clients f c)) (sym l) (keep-Guards x.guards f c n);
    for_lock = t;
    for_notice = fewer-Tracked x.for_notice _ _ (λ g k p. ground arith) (λ g k p. r g);
    nobody_parked = λ p. m (sym l ∙ p);
  }

  lock_dropped-Sound :
      (id : Option ℕ)
      → lock_id (w.clients f) ≡ id
      → has_guard (w.clients f) ≡ false
      → Sound (record w { mutex = Mutex.lock_drop id w.mutex; clients = update w.clients f absent })
  unfolding Mutex.lock_drop
  lock_dropped-Sound id e n =
      turn-Sound absent _ w.runnable (sym n) refl
        (λ p. Waiters.unpark-empty w.mutex.waiters id (x.nobody_parked p)) refl (λ g p. p)
        (unpark-Tracked x.for_lock f id _ _ e (λ g. ground arith) (λ g h. refl))

  without_f : Tracked w.condvar (update (λ g. wait_id (w.clients g)) f none) w.runnable
  without_f = fewer-Tracked x.for_notice _ _ (λ g k p. ground arith) (λ g k p q. q)

  wait_poll-Sound :
      (id : Option ℕ) (s : WaitState) → w.clients f ≡ waits id s → Sound (wait_poll f id s w)
  unfolding wait_poll unlocked Mutex.guard_drop Waiters.wake_all
  wait_poll-Sound id init e = record {
    guards = drop-Guards x.guards f _ refl (ap has_guard e);
    for_lock =
        fewer-Tracked
          (wake_all-Tracked x.for_lock (woken (Waiters.wake_all w.mutex.waiters).0 w.runnable)
            (λ g h. h))
          _ _ (λ g k p. ground arith) (λ g k p h. ground arith);
    for_notice =
        park-Tracked
          (same-Tracked x.for_notice _ (woken (Waiters.wake_all w.mutex.waiters).0 w.runnable)
            (λ g. refl) (λ g k p h. ground arith))
          f id _ _ (ap wait_id e) (λ g. ground arith) (λ g h. ground arith);
    nobody_parked = λ p. refl;
  }
  wait_poll-Sound id waiting e =
      locked_by-Sound w x f _ (λ l. waits none (relocking l)) none w.mutex.locked
        (unpark-Tracked x.for_notice f id _ _ (ap wait_id e) (λ g. refl) (λ g h. refl))
        (ap lock_id e) (ap has_guard e) (λ l. refl) (λ l. refl) (λ l. refl) refl
  wait_poll-Sound id (relocking l) e =
      locked_by-Sound w x f w.condvar (λ k. waits id (relocking k)) l w.mutex.locked without_f
        (ap lock_id e) (ap has_guard e) (λ k. refl) (λ k. refl) (λ k. refl) refl

  wait_drop-Sound :
      (id : Option ℕ) (s : WaitState) → w.clients f ≡ waits id s → Sound (wait_drop f id s w)
  unfolding wait_drop
  wait_drop-Sound id init e = unlocked-Sound w x f absent refl refl refl (ap has_guard e)
  wait_drop-Sound id waiting e = record {
    guards = keep-Guards x.guards f absent (sym (ap has_guard e));
    for_lock = fewer-Tracked x.for_lock _ _ (λ g k p. ground arith) (λ g k p q. q);
    for_notice =
        unpark-Tracked x.for_notice f id _ _ (ap wait_id e) (λ g. ground arith) (λ g h. refl);
    nobody_parked = x.nobody_parked;
  }
  wait_drop-Sound id (relocking l) e = lock_dropped-Sound l (ap lock_id e) (ap has_guard e)

  notified-Sound :
      (r : List ℕ × Waiters)
      → Tracked r.1 (λ g. wait_id (w.clients g)) (woken r.0 w.runnable)
      → Sound (notified w r)
  unfolding notified
  notified-Sound (tasks, condvar) t = record {
    guards = x.guards;
    for_lock = same-Tracked x.for_lock _ _ (λ g. refl) (λ g k p h. ground arith);
    for_notice = t;
    nobody_parked = x.nobody_parked;
  }

  act-Sound : (e : Event) (c : Client) → client_of e ≡ f → w.clients f ≡ c → Sound (act e c w)
  unfolding act
  act-Sound notify_one c h e =
      notified-Sound (Waiters.wake_one w.condvar) (wake_one-Tracked x.for_notice _ (λ g p. p))
  act-Sound notify_all c h e =
      notified-Sound (Waiters.wake_all w.condvar) (wake_all-Tracked x.for_notice _ (λ g p. p))
  act-Sound (lock g) absent h e =
      subst (λ k. Sound (act (lock k) absent w)) (sym h)
        (turn-Sound (locking none) w.mutex _ (sym (ap has_guard e)) refl x.nobody_parked refl
          (λ g p. ground arith)
          (same-Tracked x.for_lock _ _ (λ g. ground arith) (λ g k p q. ground arith)))
  act-Sound (wait g) holding h e =
      subst (λ k. Sound (act (wait k) holding w)) (sym h)
        (turn-Sound (waits none init) w.mutex _ (sym (ap has_guard e)) refl x.nobody_parked refl
          (λ g p. ground arith)
          (same-Tracked x.for_lock _ _ (λ g. ground arith) (λ g k p q. ground arith)))
  act-Sound (poll g) (locking id) h e =
      subst (λ k. Sound (act (poll k) (locking id) w)) (sym h)
        (locked_by-Sound w x f w.condvar locking id w.mutex.locked without_f (ap lock_id e)
          (ap has_guard e) (λ l. refl) (λ l. refl) (λ l. refl) refl)
  act-Sound (poll g) (waits id s) h e =
      subst (λ k. Sound (act (poll k) (waits id s) w)) (sym h) (wait_poll-Sound id s e)
  act-Sound (cancel g) (locking id) h e =
      subst (λ k. Sound (act (cancel k) (locking id) w)) (sym h)
        (lock_dropped-Sound id (ap lock_id e) (ap has_guard e))
  act-Sound (cancel g) (waits id s) h e =
      subst (λ k. Sound (act (cancel k) (waits id s) w)) (sym h) (wait_drop-Sound id s e)
  act-Sound (release g) holding h e =
      subst (λ k. Sound (act (release k) holding w)) (sym h)
        (unlocked-Sound w x f absent refl refl refl (ap has_guard e))
  act-Sound (lock g) (locking id) h e = x
  act-Sound (lock g) holding h e = x
  act-Sound (lock g) (waits id s) h e = x
  act-Sound (wait g) absent h e = x
  act-Sound (wait g) (locking id) h e = x
  act-Sound (wait g) (waits id s) h e = x
  act-Sound (poll g) absent h e = x
  act-Sound (poll g) holding h e = x
  act-Sound (cancel g) absent h e = x
  act-Sound (cancel g) holding h e = x
  act-Sound (release g) absent h e = x
  act-Sound (release g) (locking id) h e = x
  act-Sound (release g) (waits id s) h e = x

pub run-Sound : (es : List Event) (w : World) → Sound w → Sound (run es w)
unfolding run
run-Sound [] w x = x
run-Sound (e ∷ es) w x =
    run-Sound es (act e (w.clients (client_of e)) w)
      (act-Sound w x (client_of e) e (w.clients (client_of e)) refl refl)

pub start-Sound : Sound start
unfolding start Mutex.new
start-Sound = record {
  guards = record { held = λ f p. absurd cc; unique = λ f g p q. absurd cc };
  for_lock = default-Tracked (λ f. true);
  for_notice = default-Tracked (λ f. true);
  nobody_parked = λ p. refl;
}
