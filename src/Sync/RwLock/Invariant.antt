-- ===== src/Sync/RwLock/Invariant.antt =====
-- What every step of the lock and of its clients keeps.
use rust_base.Base.{
  ℕ, suc, ◌≡◌, ◌≢◌, refl, ap, sym, ◌∙◌, Bool, true, false, not, ◌&&◌, Option, none, some, List, [],
  ◌∷◌, length, ◌==◌, update, arith, inl, inr, Bool-cases, Option-cases,
}
use rust_base.Sync.Waiters
use rust_base.Sync.Tracked.{Tracked, park-Tracked, unpark-Tracked, same-Tracked}
use rust_base.Sync.RwLock.{
  read_poll, write_poll, read_drop, write_drop, Client, absent, reading, writing, exclusive, World,
  cancel, read_polled, write_polled, without, act,
}

abbrev pub read_id : Client → Option ℕ
read_id (reading id) = id
read_id _ = none

abbrev pub write_id : Client → Option ℕ
write_id (writing id) = id
write_id _ = none

abbrev pub read_ids : World → ℕ → Option ℕ
read_ids w f = read_id (w.clients f)

abbrev pub write_ids : World → ℕ → Option ℕ
write_ids w f = write_id (w.clients f)

-- The guards that exist are those that the counter and the flag say.
pub record Guards (w : World) : Type 0 where
  pub counted : w.inner.readers ≡ length w.shared
  pub alone : w.inner.writer ≡ true → w.inner.readers ≡ 0
  pub held : (f : ℕ) → w.clients f ≡ exclusive → w.inner.writer ≡ true
  pub holder : w.inner.writer ≡ true → (f : ℕ) × (w.clients f ≡ exclusive)
  pub unique : (f g : ℕ) → w.clients f ≡ exclusive → w.clients g ≡ exclusive → f ≡ g

-- Nobody is parked who need not wait.
pub record Parked (w : World) : Type 0 where
  pub readers : Tracked w.inner.read_waiters (read_ids w) w.runnable
  pub writers : Tracked w.inner.write_waiters (write_ids w) w.runnable
  pub no_reader : w.inner.writer ≡ false → w.inner.read_waiters.map ≡ []
  pub no_writer : w.inner.writer ≡ false → w.inner.readers ≡ 0 → w.inner.write_waiters.map ≡ []

pub record Sound (w : World) : Type 0 where
  pub guards : Guards w
  pub parked : Parked w

pub length-without :
    (f : ℕ) (guards rest : List ℕ)
    → without f guards ≡ some rest
    → length guards ≡ suc (length rest)
unfolding without
length-without f [] rest e = absurd cc
length-without f (g ∷ gs) rest e = elim (Bool-cases (g == f)) [
  | inl h ↦ ground arith
  | inr h ↦ elim (Option-cases (without f gs)) [
    | inl n ↦ absurd (ground arith)
    | inr (hs, n) ↦ ground (arith, length-without f gs hs n)
  ]
]

module _ (w : World) (x : Sound w) where
  -- The write guard, if there is one, stays.
  pub keep-Guards :
      (w' : World)
      → ((g : ℕ) → w'.clients g ≡ exclusive → w.clients g ≡ exclusive)
      → ((g : ℕ) → w.clients g ≡ exclusive → w'.clients g ≡ exclusive)
      → w'.inner.writer ≡ w.inner.writer
      → w'.inner.readers ≡ length w'.shared
      → (w'.inner.writer ≡ true → w'.inner.readers ≡ 0)
      → Guards w'
  keep-Guards w' down up l c n = record {
    counted = c;
    alone = n;
    held = λ g p. l ∙ x.guards.held g (down g p);
    holder = λ p. let (g, q) = x.guards.holder (sym l ∙ p) in (g, up g q);
    unique = λ g h p q. x.guards.unique g h (down g p) (down h q);
  }

  pub read_polled-Sound :
      (f : ℕ) (id : Option ℕ) (b : Bool)
      → w.clients f ≡ reading id
      → w.inner.writer ≡ b
      → Sound (read_polled f w (read_poll id f w.inner))
  unfolding read_polled read_poll
  read_polled-Sound f id true e l =
      rw (l, read_polled, read_poll)
        (record {
          guards =
              keep-Guards _ (λ g p. ground arith) (λ g p. ground arith) (sym l) x.guards.counted
                (λ p. x.guards.alone l);
          parked = record {
            readers =
                park-Tracked x.parked.readers f id _ _ (ap read_id e) (λ g. ground arith)
                  (λ g h. ground arith);
            writers =
                same-Tracked x.parked.writers _ _ (λ g. ground arith) (λ g k p h. ground arith);
            no_reader = λ p. absurd cc;
            no_writer = λ p. absurd cc;
          };
        })
  read_polled-Sound f id false e l =
      rw (l, read_polled, read_poll)
        (record {
          guards =
              keep-Guards _ (λ g p. ground arith) (λ g p. ground arith) (sym l)
                (omega (arith, x.guards.counted)) (λ p. absurd cc);
          parked = record {
            readers =
                unpark-Tracked x.parked.readers f id _ _ (ap read_id e) (λ g. ground arith)
                  (λ g h. refl);
            writers = same-Tracked x.parked.writers _ _ (λ g. ground arith) (λ g k p h. h);
            no_reader = λ p. Waiters.unpark-empty w.inner.read_waiters id (x.parked.no_reader l);
            no_writer = λ p q. absurd (omega arith);
          };
        })

  pub write_polled-Sound :
      (f : ℕ) (id : Option ℕ) (b : Bool)
      → w.clients f ≡ writing id
      → (not w.inner.writer && w.inner.readers == 0) ≡ b
      → Sound (write_polled f w (write_poll id f w.inner))
  unfolding write_polled write_poll
  write_polled-Sound f id true e l =
      rw (l, write_polled, write_poll)
        (record {
          guards = record {
            counted = x.guards.counted;
            alone = λ p. ground arith;
            held = λ g p. refl;
            holder = λ p. (f, ground arith);
            unique = λ g h p q. ground (arith, x.guards.held g, x.guards.held h);
          };
          parked = record {
            readers = same-Tracked x.parked.readers _ _ (λ g. ground arith) (λ g k p h. h);
            writers =
                unpark-Tracked x.parked.writers f id _ _ (ap write_id e) (λ g. ground arith)
                  (λ g h. refl);
            no_reader = λ p. absurd cc;
            no_writer = λ p. absurd cc;
          };
        })
  write_polled-Sound f id false e l =
      rw (l, write_polled, write_poll)
        (record {
          guards =
              keep-Guards _ (λ g p. ground arith) (λ g p. ground arith) refl x.guards.counted
                x.guards.alone;
          parked = record {
            readers =
                same-Tracked x.parked.readers _ _ (λ g. ground arith) (λ g k p h. ground arith);
            writers =
                park-Tracked x.parked.writers f id _ _ (ap write_id e) (λ g. ground arith)
                  (λ g h. ground arith);
            no_reader = x.parked.no_reader;
            no_writer = λ p q. absurd (ground arith);
          };
        })

  pub come-Sound :
      (f : ℕ) (c : Client)
      → w.clients f ≡ absent
      → read_id c ≡ none
      → write_id c ≡ none
      → c ≢ exclusive
      → Sound (record w { clients = update w.clients f c; runnable = update w.runnable f true })
  come-Sound f c e r v n = record {
    guards =
        keep-Guards _ (λ g p. ground arith) (λ g p. ground arith) refl x.guards.counted
          x.guards.alone;
    parked = record {
      readers = same-Tracked x.parked.readers _ _ (λ g. ground arith) (λ g k p h. ground arith);
      writers = same-Tracked x.parked.writers _ _ (λ g. ground arith) (λ g k p h. ground arith);
      no_reader = x.parked.no_reader;
      no_writer = x.parked.no_writer;
    };
  }

  pub cancel_read-Sound :
      (f : ℕ) (id : Option ℕ) → w.clients f ≡ reading id → Sound (act (cancel f) (reading id) w)
  unfolding act read_drop
  cancel_read-Sound f id e = record {
    guards =
        keep-Guards _ (λ g p. ground arith) (λ g p. ground arith) refl x.guards.counted
          x.guards.alone;
    parked = record {
      readers =
          unpark-Tracked x.parked.readers f id _ _ (ap read_id e) (λ g. ground arith) (λ g h. refl);
      writers = same-Tracked x.parked.writers _ _ (λ g. ground arith) (λ g k p h. h);
      no_reader = λ p. Waiters.unpark-empty w.inner.read_waiters id (x.parked.no_reader p);
      no_writer = x.parked.no_writer;
    };
  }

  pub cancel_write-Sound :
      (f : ℕ) (id : Option ℕ) → w.clients f ≡ writing id → Sound (act (cancel f) (writing id) w)
  unfolding act write_drop
  cancel_write-Sound f id e = record {
    guards =
        keep-Guards _ (λ g p. ground arith) (λ g p. ground arith) refl x.guards.counted
          x.guards.alone;
    parked = record {
      readers = same-Tracked x.parked.readers _ _ (λ g. ground arith) (λ g k p h. h);
      writers =
          unpark-Tracked x.parked.writers f id _ _ (ap write_id e) (λ g. ground arith)
            (λ g h. refl);
      no_reader = x.parked.no_reader;
      no_writer = λ p q. Waiters.unpark-empty w.inner.write_waiters id (x.parked.no_writer p q);
    };
  }
