-- ===== src/Sync/Barrier/Invariant.antt =====
-- What every step of the barrier and of its clients keeps, for a barrier of `n` participants.
use rust_base.Base.{
  ℕ, zero, suc, ◌+◌, ◌≡◌, ◌≢◌, ◌<◌, refl, ap, sym, ◌∙◌, subst, Bool, true, false, Option, none,
  some, List, [], ◌∷◌, ◌==◌, leb, update, arith, inl, inr, Bool-cases, ◌⊎◌,
}
use Prim.Native.Nat.{◌*◌}
use native.Mathlib.Decide.{ℕ_discrete}
use rust_base.Sync.Waiters
use rust_base.Sync.Waiters.{get}
use rust_base.Sync.Tracked.{
  Tracked, woken, default-Tracked, park-Tracked, unpark-Tracked, wake_all-Tracked, fewer-Tracked,
}
use rust_base.Sync.Barrier.{
  new, join, again, wait_poll, Client, absent, waiting, World, start, Event, enter, poll, cancel,
  settled, act, client_of, run,
}

abbrev pub id_of : Client → Option ℕ
id_of (waiting arrived_at id) = id
id_of absent = none

abbrev pub arrived : Client → Option ℕ
arrived (waiting arrived_at id) = arrived_at
arrived absent = none

-- The generations before one, newest first.
abbrev pub before : ℕ → List ℕ
before zero = []
before (suc g) = g ∷ before g

pub record Sound (n : ℕ) (w : World) : Type 0 where
  pub tracked : Tracked w.inner.waiters (λ f. id_of (w.clients f)) w.runnable
  -- who has joined is parked or was woken
  pub named : (f g : ℕ) → arrived (w.clients f) ≡ some g → (k : ℕ) × (id_of (w.clients f) ≡ some k)
  pub released :
      (f g : ℕ) → arrived (w.clients f) ≡ some g → g ≢ w.inner.generation → w.runnable f ≡ true
  pub room : w.inner.count < n
  pub counted : w.joined ≡ w.inner.generation * n + w.inner.count
  pub leaders : w.led ≡ before w.inner.generation

completed : (a n c j : ℕ) → j ≡ a * n + c → leb n (c + 1) ≡ true → c < n → j + 1 ≡ (a + 1) * n + 0
completed a n c j e l h = grind arith

before-next : (g : ℕ) → before (g + 1) ≡ g ∷ before g
before-next g = let e : g + 1 ≡ suc g = omega arith in ap before e

park-named :
    (id : Option ℕ) (f : ℕ) (ws : Waiters.Waiters) → (k : ℕ) × ((Waiters.park id f ws).0 ≡ some k)
unfolding Waiters.park
park-named none f ws = (ws.next, refl)
park-named (some k) f ws = (k, refl)

module _ (n : ℕ) (w : World) (x : Sound n w) (f : ℕ) where
  -- The last participant of a group joins.
  trip-Sound :
      (id : Option ℕ)
      → w.clients f ≡ waiting none id
      → leb n (w.inner.count + 1) ≡ true
      → Sound n (act n (poll f) (waiting none id) w)
  unfolding act settled wait_poll join
  trip-Sound id e l =
      rw (l, act, settled, wait_poll, join)
        (record {
          tracked = fewer-Tracked t _ _ (λ g k p. ground arith) (λ g k p h. h);
          named = λ g j p. let (k, q) = x.named g j (ground arith) in (k, ground arith);
          released = λ g j p q. let (k, r) = x.named g j (ground arith) in go g k (t.waiting g k r);
          room = omega (arith, x.room);
          counted = completed w.inner.generation n w.inner.count w.joined x.counted l x.room;
          leaders = ap (◌∷◌ w.inner.generation) x.leaders ∙ sym (before-next w.inner.generation);
        })
    where
      t :
          Tracked
            (Waiters.wake_all w.inner.waiters).1
            (λ g. id_of (w.clients g))
            (woken (Waiters.wake_all w.inner.waiters).0 w.runnable)
      t = wake_all-Tracked x.tracked _ (λ g h. h)

      go :
          (g k : ℕ)
          → (get k (Waiters.wake_all w.inner.waiters).1.map ≡ some g)
            ⊎ (woken (Waiters.wake_all w.inner.waiters).0 w.runnable g ≡ true)
          → woken (Waiters.wake_all w.inner.waiters).0 w.runnable g ≡ true
      go g k (inl p) = absurd cc
      go g k (inr p) = p

  -- Another one joins.
  join-Sound :
      (id : Option ℕ)
      → w.clients f ≡ waiting none id
      → leb n (w.inner.count + 1) ≡ false
      → Sound n (act n (poll f) (waiting none id) w)
  unfolding act settled wait_poll join
  join-Sound id e l =
      rw (l, act, settled, wait_poll, join)
        (record {
          tracked =
              park-Tracked x.tracked f id _ _ (ap id_of e) (λ g. ground arith)
                (λ g h. ground arith);
          named = λ g j p. elim (ℕ_discrete f g) [
            | yes same ↦ let (k, q) = park-named id f w.inner.waiters in (k, ground arith)
            | no other ↦ let (k, q) = x.named g j (ground arith) in (k, ground arith)
          ];
          released = λ g j p q. ground (arith, x.released g j);
          room = ground arith;
          counted = omega (arith, x.counted);
          leaders = x.leaders;
        })

  -- One polls again, before its group is complete.
  wait-Sound :
      (j : ℕ) (id : Option ℕ)
      → w.clients f ≡ waiting (some j) id
      → (w.inner.generation == j) ≡ true
      → Sound n (act n (poll f) (waiting (some j) id) w)
  unfolding act settled wait_poll again
  wait-Sound j id e l =
      rw (l, act, settled, wait_poll, again)
        (record {
          tracked =
              park-Tracked x.tracked f id _ _ (ap id_of e) (λ g. ground arith)
                (λ g h. ground arith);
          named = λ g i p. elim (ℕ_discrete f g) [
            | yes same ↦ let (k, q) = park-named id f w.inner.waiters in (k, ground arith)
            | no other ↦ let (k, q) = x.named g i (ground arith) in (k, ground arith)
          ];
          released = λ g i p q. ground (arith, x.released g i);
          room = x.room;
          counted = omega (arith, x.counted);
          leaders = x.leaders;
        })

  -- One polls again, after that.
  leave-Sound :
      (j : ℕ) (id : Option ℕ)
      → w.clients f ≡ waiting (some j) id
      → (w.inner.generation == j) ≡ false
      → Sound n (act n (poll f) (waiting (some j) id) w)
  unfolding act settled wait_poll again
  leave-Sound j id e l =
      rw (l, act, settled, wait_poll, again)
        (record {
          tracked =
              unpark-Tracked x.tracked f id _ _ (ap id_of e) (λ g. ground arith) (λ g h. refl);
          named = λ g i p. let (k, q) = x.named g i (ground arith) in (k, ground arith);
          released = λ g i p q. ground (arith, x.released g i);
          room = x.room;
          counted = omega (arith, x.counted);
          leaders = x.leaders;
        })

  -- A future comes or goes.
  other-Sound :
      (c : Client) (runnable' : ℕ → Bool)
      → id_of c ≡ none
      → arrived c ≡ none
      → ((g : ℕ) → w.runnable g ≡ true → runnable' g ≡ true)
      → Sound n (record w { clients = update w.clients f c; runnable = runnable' })
  other-Sound c runnable' i a r = record {
    tracked = fewer-Tracked x.tracked _ _ (λ g k p. ground arith) (λ g k p. r g);
    named = λ g j p. let (k, q) = x.named g j (ground arith) in (k, ground arith);
    released = λ g j p q. r g (x.released g j (ground arith) q);
    room = x.room;
    counted = x.counted;
    leaders = x.leaders;
  }

  polled-Sound :
      (a id : Option ℕ) → w.clients f ≡ waiting a id → Sound n (act n (poll f) (waiting a id) w)
  polled-Sound none id e = elim (Bool-cases (leb n (w.inner.count + 1))) [
    | inl l ↦ trip-Sound id e l
    | inr l ↦ join-Sound id e l
  ]
  polled-Sound (some j) id e = elim (Bool-cases (w.inner.generation == j)) [
    | inl l ↦ wait-Sound j id e l
    | inr l ↦ leave-Sound j id e l
  ]

  act-Sound : (e : Event) (c : Client) → client_of e ≡ f → w.clients f ≡ c → Sound n (act n e c w)
  unfolding act
  act-Sound (enter g) absent h e =
      subst (λ k. Sound n (act n (enter k) absent w)) (sym h)
        (other-Sound (waiting none none) (update w.runnable f true) refl refl (λ g p. ground arith))
  act-Sound (cancel g) (waiting a id) h e =
      subst (λ k. Sound n (act n (cancel k) (waiting a id) w)) (sym h)
        (other-Sound absent w.runnable refl refl (λ g p. p))
  act-Sound (poll g) (waiting a id) h e =
      subst (λ k. Sound n (act n (poll k) (waiting a id) w)) (sym h) (polled-Sound a id e)
  act-Sound (enter g) (waiting a id) h e = x
  act-Sound (poll g) absent h e = x
  act-Sound (cancel g) absent h e = x

module _ (n : ℕ) where
  pub run-Sound : (es : List Event) (w : World) → Sound n w → Sound n (run n es w)
  unfolding run
  run-Sound [] w x = x
  run-Sound (e ∷ es) w x =
      run-Sound es (act n e (w.clients (client_of e)) w)
        (act-Sound n w x (client_of e) e (w.clients (client_of e)) refl refl)

  pub start-Sound : 0 < n → Sound n start
  unfolding start new
  start-Sound h = record {
    tracked = default-Tracked (λ f. true);
    named = λ f g e. absurd cc;
    released = λ f g e k. refl;
    room = h;
    counted = omega arith;
    leaders = refl;
  }
