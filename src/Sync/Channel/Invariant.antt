-- ===== src/Sync/Channel/Invariant.antt =====
-- What every step of a channel and of its handles and futures keeps.
use rust_base.Base.{
  ℕ, ◌-◌, ◌≡◌, ◌≢◌, refl, ap, sym, ◌∙◌, Bool, true, false, not, ◌&&◌, Option, none, List, [], ◌∷◌,
  ◌++◌, ◌==◌, is_empty, if◌then◌else◌, arith, inl, inr, Bool-cases, append_assoc,
}
use rust_base.Sync.Waiters
use rust_base.Sync.Tracked.{
  Tracked, default-Tracked, park-Tracked, unpark-Tracked, wake_all-Tracked, same-Tracked,
}
use rust_base.Sync.Channel.{
  ChanInner, channel, try_send, sender_clone, sender_drop, receiver_clone, receiver_drop,
  recv_items, recv_poll, recv_drop, Client, absent, receiving, World, start, Event, send,
  clone_sender, drop_sender, clone_receiver, drop_receiver, recv, poll, cancel, after_send, polled,
  poll_client, cancel_client, recv_client, after_drop, step, run,
}

abbrev pub id_of : Client → Option ℕ
id_of (receiving id) = id
id_of absent = none

module _ {T : Type 0} where
  abbrev pub ids : World T → ℕ → Option ℕ
  ids w f = id_of (w.clients f)

  -- A receiver has to wait.
  abbrev pub must_wait : ChanInner T → Bool
  must_wait s = is_empty s.items && not (s.senders == 0)

  pub record Sound (w : World T) : Type 0 where
    pub tracked : Tracked w.inner.recv_waiters (ids w) w.runnable
    pub nobody_parked : must_wait w.inner ≡ false → w.inner.recv_waiters.map ≡ []
    pub in_order : w.received ++ w.inner.items ≡ w.sent

  module _ (w : World T) (x : Sound w) where
    send-Sound :
        (v : T) (b : Bool)
        → (w.inner.receivers == 0) ≡ b
        → Sound (after_send v w (try_send v w.inner))
    unfolding after_send try_send Waiters.wake_all
    send-Sound v true e = rw (e, after_send, try_send) x
    send-Sound v false e =
        rw (e, after_send, try_send)
          (record {
            tracked = wake_all-Tracked x.tracked _ (λ g h. h);
            nobody_parked = λ p. refl;
            in_order =
                sym (append_assoc w.received w.inner.items (v ∷ []))
                ∙ ap (λ (q : List T). q ++ v ∷ []) x.in_order;
          })

    drop_sender-Sound :
        (b : Bool) → (w.inner.senders - 1 == 0) ≡ b → Sound (after_drop w (sender_drop w.inner))
    unfolding after_drop sender_drop Waiters.wake_all
    drop_sender-Sound true e =
        rw (e, after_drop, sender_drop)
          (record {
            tracked = wake_all-Tracked x.tracked _ (λ g h. h);
            nobody_parked = λ p. refl;
            in_order = x.in_order;
          })
    drop_sender-Sound false e =
        rw (e, after_drop, sender_drop)
          (record {
            tracked = same-Tracked x.tracked _ _ (λ g. refl) (λ g k p h. h);
            nobody_parked = λ p. x.nobody_parked (ground arith);
            in_order = x.in_order;
          })

    pop-Sound :
        (f : ℕ) (id : Option ℕ) (v : T) (items : List T)
        → w.clients f ≡ receiving id
        → w.inner.items ≡ v ∷ items
        → Sound (polled f w (recv_items id f w.inner (v ∷ items)))
    unfolding polled recv_items
    pop-Sound f id v items e q = record {
      tracked = unpark-Tracked x.tracked f id _ _ (ap id_of e) (λ g. ground arith) (λ g h. refl);
      nobody_parked =
          λ p. Waiters.unpark-empty w.inner.recv_waiters id (x.nobody_parked (ground arith));
      in_order =
          append_assoc w.received (v ∷ []) items
          ∙ ap (λ (r : List T). w.received ++ r) (sym q)
          ∙ x.in_order;
    }

    wait-Sound :
        (f : ℕ) (id : Option ℕ) (b : Bool)
        → w.clients f ≡ receiving id
        → w.inner.items ≡ []
        → (w.inner.senders == 0) ≡ b
        → Sound (polled f w (recv_items id f w.inner []))
    unfolding polled recv_items
    wait-Sound f id true e q l =
        rw (l, polled, recv_items)
          (record {
            tracked =
                unpark-Tracked x.tracked f id _ _ (ap id_of e) (λ g. ground arith) (λ g h. refl);
            nobody_parked =
                λ p. Waiters.unpark-empty w.inner.recv_waiters id (x.nobody_parked (ground arith));
            in_order = x.in_order;
          })
    wait-Sound f id false e q l =
        rw (l, polled, recv_items)
          (record {
            tracked =
                park-Tracked x.tracked f id _ _ (ap id_of e) (λ g. ground arith)
                  (λ g h. ground arith);
            nobody_parked = λ p. absurd (ground arith);
            in_order = x.in_order;
          })

    poll-Sound : (f : ℕ) (c : Client) → w.clients f ≡ c → Sound (poll_client f c w)
    unfolding poll_client recv_poll
    poll-Sound f absent e = x
    poll-Sound f (receiving id) e = go w.inner.items refl
      where
        go :
            (items : List T)
            → w.inner.items ≡ items
            → Sound (polled f w (recv_items id f w.inner items))
        go [] q = wait-Sound f id (w.inner.senders == 0) e q refl
        go (v ∷ items) q = pop-Sound f id v items e q

    cancel-Sound : (f : ℕ) (c : Client) → w.clients f ≡ c → Sound (cancel_client f c w)
    unfolding cancel_client recv_drop
    cancel-Sound f absent e = x
    cancel-Sound f (receiving id) e = record {
      tracked = unpark-Tracked x.tracked f id _ _ (ap id_of e) (λ g. ground arith) (λ g h. refl);
      nobody_parked = λ p. Waiters.unpark-empty w.inner.recv_waiters id (x.nobody_parked p);
      in_order = x.in_order;
    }

    recv-Sound : (f : ℕ) (c : Client) → w.clients f ≡ c → Sound (recv_client f c w)
    unfolding recv_client
    recv-Sound f absent e = record {
      tracked = same-Tracked x.tracked _ _ (λ g. ground arith) (λ g k p h. ground arith);
      nobody_parked = x.nobody_parked;
      in_order = x.in_order;
    }
    recv-Sound f (receiving id) e = x

  -- A step that asks for a handle first.
  with_handle :
      (n : ℕ) (w w' : World T) → Sound w → (n ≢ 0 → Sound w') → Sound (if n == 0 then w else w')
  with_handle n w w' x k = elim (Bool-cases (n == 0)) [
    | inl e ↦ rw e x
    | inr e ↦ rw e (k (ground arith))
  ]

  step-Sound : (e : Event T) (w : World T) → Sound w → Sound (step e w)
  unfolding step sender_clone receiver_clone receiver_drop
  step-Sound (send v) w x =
      with_handle w.inner.senders w _ x (λ n. send-Sound w x v (w.inner.receivers == 0) refl)
  step-Sound clone_sender w x = with_handle w.inner.senders w _ x (λ n. record {
    tracked = x.tracked;
    nobody_parked = λ p. x.nobody_parked (ground arith);
    in_order = x.in_order;
  })
  step-Sound drop_sender w x =
      with_handle w.inner.senders w _ x (λ n. drop_sender-Sound w x (w.inner.senders - 1 == 0) refl)
  step-Sound clone_receiver w x =
      with_handle w.inner.receivers w _ x (λ n. record {
        tracked = x.tracked;
        nobody_parked = x.nobody_parked;
        in_order = x.in_order;
      })
  step-Sound drop_receiver w x =
      with_handle w.inner.receivers w _ x (λ n. record {
        tracked = x.tracked;
        nobody_parked = x.nobody_parked;
        in_order = x.in_order;
      })
  step-Sound (recv f) w x =
      with_handle w.inner.receivers w _ x (λ n. recv-Sound w x f (w.clients f) refl)
  step-Sound (poll f) w x = poll-Sound w x f (w.clients f) refl
  step-Sound (cancel f) w x = cancel-Sound w x f (w.clients f) refl

  pub run-Sound : (es : List (Event T)) (w : World T) → Sound w → Sound (run es w)
  unfolding run
  run-Sound [] w x = x
  run-Sound (e ∷ es) w x = run-Sound es (step e w) (step-Sound e w x)

  pub start-Sound : Sound start
  unfolding start channel
  start-Sound = record {
    tracked = default-Tracked (λ f. true);
    nobody_parked = λ p. refl;
    in_order = refl;
  }
