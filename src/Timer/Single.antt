-- ===== src/Timer/Single.antt =====
-- How many ticks a timer of rust_task/timer.rs has under way.
use rust_base.Base.{
  ℕ, zero, suc, ◌+◌, ◌<◌, ◌≤◌, ◌≡◌, refl, sym, ap, ◌∙◌, Bool, true, false, Option, none, some, List,
  [], ◌∷◌, any, ◌==◌, if◌then◌else◌, arith, inl, inr, Bool-cases,
}
use rust_base.Pool.Schedule.{extract}
use rust_base.Timer.{
  Timer, new, is_active, can_upgrade, start, stop, schedule_next, started, bind_once, tick,
  rescheduled, called_back, Event, starts, stops, start_schedules, ticks, reschedules, calls, step,
  run,
}

abbrev pub count : ℕ → List ℕ → ℕ
count id [] = 0
count id (x ∷ xs) = (if x == id then 1 else 0) + count id xs

pub any-none : (id : ℕ) (xs : List ℕ) → count id xs ≡ 0 → any (λ i. i == id) xs ≡ false
any-none id [] e = refl
any-none id (x ∷ xs) e = ground (arith, any-none id xs)

-- What is taken out of a list is what the rest lacks.
abbrev pub Taken : List ℕ → Option (ℕ × List ℕ) → Type 0
Taken xs none = Unit
Taken xs (some (x, rest)) = (id : ℕ) → count id xs ≡ (if x == id then 1 else 0) + count id rest

pub extract-Taken : (n : ℕ) (xs : List ℕ) → Taken xs (extract n xs)
unfolding extract
extract-Taken n [] = tt
extract-Taken zero (x ∷ xs) = λ id. refl
extract-Taken (suc n) (x ∷ xs) = go (extract n xs) (extract-Taken n xs)
  where
    go :
        (r : Option (ℕ × List ℕ))
        → Taken xs r
        → Taken (x ∷ xs) (elim r [ none ↦ none | some (y, rest) ↦ some (y, x ∷ rest) ])
    go none k = tt
    go (some (y, rest)) k = λ id. omega (arith, k id)

-- The ticks of one inner state: one that a start is about to post, those posted, and those that are
-- about to post the next.
abbrev pub under_way : ℕ → Timer → ℕ
under_way id t = count id t.starting + count id t.pending + count id t.upgraded

-- The calls of its callback, begun or done.
abbrev pub calls_of : ℕ → Timer → ℕ
calls_of id t = count id t.calling + count id t.called

-- With those that the runner refused.
abbrev pub of_chain : ℕ → Timer → ℕ
of_chain id t = under_way id t + count id t.lost

any-count : (id : ℕ) (xs : List ℕ) → any (λ i. i == id) xs ≡ false → count id xs ≡ 0
any-count id [] e = refl
any-count id (x ∷ xs) e = ground (arith, any-count id xs)

pub dead_inactive : (id : ℕ) (t : Timer) → can_upgrade id t ≡ false → is_active id t.active ≡ false
unfolding can_upgrade
dead_inactive id t h = ground arith

pub record Single (t : Timer) : Type 0 where
  pub fresh : (id : ℕ) → t.next ≤ id → of_chain id t ≡ 0
  pub known : (id : ℕ) → is_active id t.active ≡ true → id < t.next
  pub one : (id : ℕ) → is_active id t.active ≡ true → of_chain id t ≡ 1
  pub at_most_one : (id : ℕ) → of_chain id t ≤ 1

module _ (t : Timer) (x : Single t) where
  -- Ticks move on, and none is lost of an inner state that is active.
  same-Single :
      (t' : Timer)
      → t'.next ≡ t.next
      → t'.active ≡ t.active
      → ((id : ℕ) → of_chain id t' ≤ of_chain id t)
      → ((id : ℕ) → is_active id t.active ≡ true → of_chain id t' ≡ of_chain id t)
      → Single t'
  same-Single t' n a l u = record {
    fresh = λ id h. omega (arith, l id, x.fresh id (omega arith));
    known = λ id h. let k = x.known id (sym (ap (is_active id) a) ∙ h) in omega arith;
    one = λ id h. let k = sym (ap (is_active id) a) ∙ h in u id k ∙ x.one id k;
    at_most_one = λ id. omega (arith, l id, x.at_most_one id);
  }

  started-Single :
      (b : Bool) (r : Option (ℕ × List ℕ)) → Taken t.starting r → Single (started b t r)
  unfolding started schedule_next
  started-Single b none k = x
  started-Single true (some (i, rest)) k =
      same-Single _ refl refl (λ id. omega (arith, k id)) (λ id h. omega (arith, k id))
  started-Single false (some (i, rest)) k =
      same-Single _ refl refl (λ id. omega (arith, k id)) (λ id h. omega (arith, k id))

  tick-Single : (r : Option (ℕ × List ℕ)) → Taken t.pending r → Single (tick t r)
  unfolding tick bind_once
  tick-Single none k = x
  tick-Single (some (i, rest)) k = elim (Bool-cases (can_upgrade i (record t { pending = rest }))) [
    | inl h ↦
        rw (h, bind_once, tick)
          (same-Single _ refl refl (λ id. omega (arith, k id)) (λ id h. omega (arith, k id)))
    | inr h ↦
        rw (h, bind_once, tick)
          (same-Single _ refl refl (λ id. omega (arith, k id))
            (λ id p.
              let d = dead_inactive i (record t { pending = rest }) h in ground (arith, k id)))
  ]

  rescheduled-Single :
      (b : Bool) (r : Option (ℕ × List ℕ)) → Taken t.upgraded r → Single (rescheduled b t r)
  unfolding rescheduled schedule_next
  rescheduled-Single b none k = x
  rescheduled-Single true (some (i, rest)) k =
      same-Single _ refl refl (λ id. omega (arith, k id)) (λ id h. omega (arith, k id))
  rescheduled-Single false (some (i, rest)) k =
      same-Single _ refl refl (λ id. omega (arith, k id)) (λ id h. omega (arith, k id))

  called_back-Single : (r : Option (ℕ × List ℕ)) → Single (called_back t r)
  unfolding called_back
  called_back-Single none = x
  called_back-Single (some (i, rest)) = same-Single _ refl refl (λ id. omega arith) (λ id h. refl)

  pub step-Single : (e : Event) → Single (step e t)
  unfolding step start stop
  step-Single starts = record {
    fresh = λ id h. ground (arith, x.fresh id);
    known = λ id h. ground arith;
    one = λ id h. ground (arith, x.fresh t.next);
    at_most_one = λ id. ground (arith, x.fresh t.next, x.at_most_one id);
  }
  step-Single stops = record {
    fresh = x.fresh;
    known = λ id h. absurd cc;
    one = λ id h. absurd cc;
    at_most_one = x.at_most_one;
  }
  step-Single (start_schedules n b) =
      started-Single b (extract n t.starting) (extract-Taken n t.starting)
  step-Single (ticks n) = tick-Single (extract n t.pending) (extract-Taken n t.pending)
  step-Single (reschedules n b) =
      rescheduled-Single b (extract n t.upgraded) (extract-Taken n t.upgraded)
  step-Single (calls n) = called_back-Single (extract n t.calling)

pub run-Single : (es : List Event) (t : Timer) → Single t → Single (run es t)
unfolding run
run-Single [] t x = x
run-Single (e ∷ es) t x = run-Single es (step e t) (step-Single t x e)

pub new-Single : Single new
unfolding new
new-Single = record {
  fresh = λ id h. refl;
  known = λ id h. absurd cc;
  one = λ id h. absurd cc;
  at_most_one = λ id. omega arith;
}
