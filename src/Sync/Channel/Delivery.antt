-- ===== src/Sync/Channel/Delivery.antt =====
-- What a channel (rust_async/sync.rs) delivers, however its senders and receivers interleave.
use rust_base.Base.{
  ℕ, ◌≡◌, refl, ap, sym, ◌∙◌, ◌⊎◌, inl, inr, true, false, Option, some, List, [], ◌∷◌, ◌++◌,
  append-nil, arith,
}
use rust_base.Sync.{ready}
use rust_base.Sync.Waiters.{get}
use rust_base.Sync.Channel.{ChanInner, start, receiving, closed, Event, run, recv_poll, recv_items}
use rust_base.Sync.Channel.Invariant.{id_of, must_wait, Sound, run-Sound, start-Sound}

module _ {T : Type 0} where
  -- Whatever the schedule, the values received, followed by those still in the channel, are those that
  -- `send` accepted, in the order of the sends: none is lost, none doubled, none overtakes another.
  pub run-in_order :
      (es : List (Event T))
      → (run es start).received ++ (run es start).inner.items ≡ (run es start).sent
  run-in_order es = (run-Sound es start start-Sound).in_order

  -- Whatever the schedule, a receiver that waits while there is a value, or no sender is left, has had
  -- its task woken since it was last polled: no wake-up is lost, cancelled receivers included.
  pub run-recv_woken :
      (es : List (Event T)) (f k : ℕ)
      → (run es start).clients f ≡ receiving (some k)
      → must_wait (run es start).inner ≡ false
      → (run es start).runnable f ≡ true
  run-recv_woken es f k e l = go (x.tracked.waiting f k (ap id_of e))
    where
      x : Sound (run es start)
      x = run-Sound es start start-Sound

      go :
          (get k (run es start).inner.recv_waiters.map ≡ some f)
            ⊎ ((run es start).runnable f ≡ true)
          → (run es start).runnable f ≡ true
      go (inl q) = let p = x.nobody_parked l in ground arith
      go (inr q) = q

  closed_empty :
      (id : Option ℕ) (f : ℕ) (s : ChanInner T)
      → (recv_poll id f s).0 ≡ ready closed
      → (s.items ≡ []) × (s.senders ≡ 0)
  unfolding recv_poll recv_items
  closed_empty id f s = go s.items refl
    where
      go :
          (items : List T)
          → s.items ≡ items
          → (recv_items id f s items).0 ≡ ready closed
          → (s.items ≡ []) × (s.senders ≡ 0)
      go [] q e = (q, ground arith)
      go (v ∷ items) q e = absurd cc

  -- Whatever the schedule, a receiver is told that the channel is closed only when no sender is left
  -- and every value that was accepted has been received.
  pub run-closed :
      (es : List (Event T)) (id : Option ℕ) (f : ℕ)
      → (recv_poll id f (run es start).inner).0 ≡ ready closed
      → ((run es start).inner.senders ≡ 0) × ((run es start).received ≡ (run es start).sent)
  run-closed es id f e =
      let (empty, none_left) = closed_empty id f (run es start).inner e in
      (
        none_left,
        sym (append-nil (run es start).received)
            ∙ ap (λ (r : List T). (run es start).received ++ r) (sym empty)
            ∙ run-in_order es,
      )
