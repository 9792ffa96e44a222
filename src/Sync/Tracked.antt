-- ===== src/Sync/Tracked.antt =====
-- The futures that wait on a wait set of rust_async/sync.rs: each one that has an identifier is parked
-- under it, or its task has been woken since it was last polled.
use rust_base.Base.{
  ℕ, ◌<◌, ◌≡◌, ◌≢◌, sym, ◌∙◌, ◌⊎◌, inl, inr, Bool, true, ◌||◌, Option, none, some, List, any, ◌==◌,
  update, arith, refl, [], ◌∷◌,
}
use native.Mathlib.Decide.{ℕ_discrete}
use rust_base.Sync.Waiters.{
  Waiters, default, get, insert, remove, park, unpark, wake_all, wake_one, wake_first, get-insert,
  get-remove, get-woken,
}

-- After some tasks were woken.
abbrev pub woken : List ℕ → (ℕ → Bool) → ℕ → Bool
woken tasks runnable f = any (λ g. g == f) tasks || runnable f

pub record Tracked (ws : Waiters) (id : ℕ → Option ℕ) (runnable : ℕ → Bool) : Type 0 where
  pub below : (f k : ℕ) → id f ≡ some k → k < ws.next
  pub distinct : (f g k : ℕ) → id f ≡ some k → id g ≡ some k → f ≡ g
  pub waiting : (f k : ℕ) → id f ≡ some k → (get k ws.map ≡ some f) ⊎ (runnable f ≡ true)

pub default-Tracked : (runnable : ℕ → Bool) → Tracked default (λ f. none) runnable
default-Tracked runnable = record {
  below = λ f k e. absurd cc;
  distinct = λ f g k e. absurd cc;
  waiting = λ f k e. absurd cc;
}

module _ {ws : Waiters} {id : ℕ → Option ℕ} {runnable : ℕ → Bool} (x : Tracked ws id runnable) where
  -- A future that is polled parks, with its task's waker.
  pub park-Tracked :
      (f : ℕ) (o : Option ℕ) (id' : ℕ → Option ℕ) (runnable' : ℕ → Bool)
      → id f ≡ o
      → ((g : ℕ) → id' g ≡ update id f (park o f ws).0 g)
      → ((g : ℕ) → f ≢ g → runnable' g ≡ runnable g)
      → Tracked (park o f ws).1 id' runnable'
  unfolding park
  park-Tracked f none id' runnable' e h r = record {
    below = λ g k p. ground (arith, h g, x.below g k);
    distinct = λ g i k p q. ground (arith, h g, h i, x.below g k, x.below i k, x.distinct g i k);
    waiting = λ g k p. elim (ℕ_discrete f g) [
      | yes same ↦ inl (ground (arith, get-insert ws.next f k ws.map, h g))
      | no other ↦ go g k (ground (arith, h g)) other (x.waiting g k (ground (arith, h g)))
    ];
  }
    where
      go :
          (g k : ℕ)
          → id g ≡ some k
          → f ≢ g
          → (get k ws.map ≡ some g) ⊎ (runnable g ≡ true)
          → (get k (insert ws.next f ws.map) ≡ some g) ⊎ (runnable' g ≡ true)
      go g k p other (inl q) = inl (ground (arith, get-insert ws.next f k ws.map, x.below g k))
      go g k p other (inr q) = inr (ground (arith, r g))
  park-Tracked f (some j) id' runnable' e h r = record {
    below = λ g k p. ground (arith, h g, x.below g k);
    distinct = λ g i k p q. ground (arith, h g, h i, x.distinct g i k);
    waiting = λ g k p. elim (ℕ_discrete f g) [
      | yes same ↦ inl (ground (arith, get-insert j f k ws.map, h g))
      | no other ↦ go g k (ground (arith, h g)) other (x.waiting g k (ground (arith, h g)))
    ];
  }
    where
      go :
          (g k : ℕ)
          → id g ≡ some k
          → f ≢ g
          → (get k ws.map ≡ some g) ⊎ (runnable g ≡ true)
          → (get k (insert j f ws.map) ≡ some g) ⊎ (runnable' g ≡ true)
      go g k p other (inl q) = inl (ground (arith, get-insert j f k ws.map, x.distinct f g j))
      go g k p other (inr q) = inr (ground (arith, r g))

  -- A future that is done, or is dropped, takes its waker out.
  pub unpark-Tracked :
      (f : ℕ) (o : Option ℕ) (id' : ℕ → Option ℕ) (runnable' : ℕ → Bool)
      → id f ≡ o
      → ((g : ℕ) → id' g ≡ update id f none g)
      → ((g : ℕ) → f ≢ g → runnable' g ≡ runnable g)
      → Tracked (unpark o ws) id' runnable'
  unfolding unpark
  unpark-Tracked f none id' runnable' e h r = record {
    below = λ g k p. ground (arith, h g, x.below g k);
    distinct = λ g i k p q. ground (arith, h g, h i, x.distinct g i k);
    waiting = λ g k p. go g k (x.waiting g k (ground (arith, h g))) (ground (arith, h g));
  }
    where
      go :
          (g k : ℕ)
          → (get k ws.map ≡ some g) ⊎ (runnable g ≡ true)
          → f ≢ g
          → (get k ws.map ≡ some g) ⊎ (runnable' g ≡ true)
      go g k (inl q) other = inl q
      go g k (inr q) other = inr (ground (arith, r g))
  unpark-Tracked f (some j) id' runnable' e h r = record {
    below = λ g k p. ground (arith, h g, x.below g k);
    distinct = λ g i k p q. ground (arith, h g, h i, x.distinct g i k);
    waiting = λ g k p.
        go g k (ground (arith, h g)) (x.waiting g k (ground (arith, h g))) (ground (arith, h g));
  }
    where
      go :
          (g k : ℕ)
          → id g ≡ some k
          → (get k ws.map ≡ some g) ⊎ (runnable g ≡ true)
          → f ≢ g
          → (get k (remove j ws.map) ≡ some g) ⊎ (runnable' g ≡ true)
      go g k p (inl q) other = inl (ground (arith, get-remove j k ws.map, x.distinct f g j))
      go g k p (inr q) other = inr (ground (arith, r g))

  -- Every parked future is woken.
  pub wake_all-Tracked :
      (runnable' : ℕ → Bool)
      → ((g : ℕ) → woken (wake_all ws).0 runnable g ≡ true → runnable' g ≡ true)
      → Tracked (wake_all ws).1 id runnable'
  unfolding wake_all
  wake_all-Tracked runnable' r = record {
    below = x.below;
    distinct = x.distinct;
    waiting = λ g k p. inr (go g k (x.waiting g k p));
  }
    where
      go : (g k : ℕ) → (get k ws.map ≡ some g) ⊎ (runnable g ≡ true) → runnable' g ≡ true
      go g k (inl q) = r g (ground (arith, get-woken k g ws.map))
      go g k (inr q) = r g (ground arith)

  -- One parked future is woken, if there is one.
  pub wake_one-Tracked :
      (runnable' : ℕ → Bool)
      → ((g : ℕ) → woken (wake_one ws).0 runnable g ≡ true → runnable' g ≡ true)
      → Tracked (wake_one ws).1 id runnable'
  unfolding wake_one
  wake_one-Tracked runnable' r = go ws.map (λ k. refl) r
    where
      go :
          (m : List (ℕ × ℕ))
          → ((k : ℕ) → get k ws.map ≡ get k m)
          → ((g : ℕ) → woken (wake_first ws m).0 runnable g ≡ true → runnable' g ≡ true)
          → Tracked (wake_first ws m).1 id runnable'
      go [] e r = record {
        below = x.below;
        distinct = x.distinct;
        waiting = λ g k p. kept g k (x.waiting g k p);
      }
        where
          kept :
              (g k : ℕ)
              → (get k ws.map ≡ some g) ⊎ (runnable g ≡ true)
              → (get k ws.map ≡ some g) ⊎ (runnable' g ≡ true)
          kept g k (inl q) = inl q
          kept g k (inr q) = inr (r g q)
      go ((key, v) ∷ m) e r = record {
        below = x.below;
        distinct = x.distinct;
        waiting = λ g k p. kept g k (x.waiting g k p);
      }
        where
          kept :
              (g k : ℕ)
              → (get k ws.map ≡ some g) ⊎ (runnable g ≡ true)
              → (get k (remove key ws.map) ≡ some g) ⊎ (runnable' g ≡ true)
          kept g k (inr q) = inr (r g (ground arith))
          kept g k (inl q) = elim (ℕ_discrete key k) [
            | yes same ↦ inr (r g (ground (arith, e k)))
            | no other ↦ inl (ground (arith, get-remove key k ws.map))
          ]

  -- No more futures, and no fewer tasks of theirs that are runnable.
  pub fewer-Tracked :
      (id' : ℕ → Option ℕ) (runnable' : ℕ → Bool)
      → ((g k : ℕ) → id' g ≡ some k → id g ≡ some k)
      → ((g k : ℕ) → id' g ≡ some k → runnable g ≡ true → runnable' g ≡ true)
      → Tracked ws id' runnable'
  fewer-Tracked id' runnable' h r = record {
    below = λ g k p. x.below g k (h g k p);
    distinct = λ g i k p q. x.distinct g i k (h g k p) (h i k q);
    waiting = λ g k p. go g k p (x.waiting g k (h g k p));
  }
    where
      go :
          (g k : ℕ)
          → id' g ≡ some k
          → (get k ws.map ≡ some g) ⊎ (runnable g ≡ true)
          → (get k ws.map ≡ some g) ⊎ (runnable' g ≡ true)
      go g k p (inl q) = inl q
      go g k p (inr q) = inr (r g k p q)

  -- The same futures, and no fewer tasks of theirs that are runnable.
  pub same-Tracked :
      (id' : ℕ → Option ℕ) (runnable' : ℕ → Bool)
      → ((g : ℕ) → id' g ≡ id g)
      → ((g k : ℕ) → id g ≡ some k → runnable g ≡ true → runnable' g ≡ true)
      → Tracked ws id' runnable'
  same-Tracked id' runnable' h r =
      fewer-Tracked id' runnable' (λ g k p. sym (h g) ∙ p) (λ g k p. r g k (sym (h g) ∙ p))
