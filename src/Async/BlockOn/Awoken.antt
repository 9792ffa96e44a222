-- ===== src/Async/BlockOn/Awoken.antt =====
-- No wake-up of `block_on` of rust_async/block_on.rs is lost.
use rust_base.Base.{
  ℕ, zero, suc, ◌<◌, ◌≡◌, ◌⊎◌, inl, inr, refl, Bool, true, false, List, [], ◌∷◌, arith, Bool-cases,
  subst, ap,
}
use rust_base.Async.BlockOn.{
  Pc, polling, swapping, parked, returned, BlockOn, new, thread_step, store, unpark, wake, Event,
  thread, wakes, stores, unparks, step, run,
}

-- Whether the thread is between a poll and the next.
abbrev pub waits : Pc → Bool
waits polling = false
waits swapping = true
waits parked = true
waits returned = false

abbrev pub is_parked : Pc → Bool
is_parked polling = false
is_parked swapping = false
is_parked parked = true
is_parked returned = false

-- A thread that waits for a future that is ready will see `awoken`, and one that is parked then will be
-- unparked.
pub record Inv (pc : Pc) (awoken permit completed : Bool) (storing unparking : ℕ) : Type 0 where
  pub seen : waits pc ≡ true → completed ≡ true → (0 < storing) ⊎ (awoken ≡ true)
  pub roused : is_parked pc ≡ true → awoken ≡ true → (0 < unparking) ⊎ (permit ≡ true)

abbrev pub InvOf : BlockOn → Type 0
InvOf s = Inv s.pc s.awoken s.permit s.completed s.storing s.unparking

thread-Inv :
    (spurious : Bool) (pc : Pc) (s : BlockOn)
    → s.pc ≡ pc
    → InvOf s
    → InvOf (thread_step spurious pc s)
unfolding thread_step
thread-Inv spurious polling s e h = elim (Bool-cases s.completed) [
  | inl c ↦ rw c (record { seen = λ w d. ground arith; roused = λ w d. ground arith })
  | inr c ↦ rw c (record { seen = λ w d. ground arith; roused = λ w d. ground arith })
]
thread-Inv spurious swapping s e h = elim (Bool-cases s.awoken) [
  | inl c ↦ rw c (record { seen = λ w d. ground arith; roused = λ w d. ground arith })
  | inr c ↦ rw c (record {
    seen = λ w d. subst (λ b. (0 < s.storing) ⊎ (b ≡ true)) c (h.seen (ap waits e) d);
    roused = λ w d. ground arith;
  })
]
thread-Inv spurious parked s e h = elim (Bool-cases s.permit) [
  | inl c ↦ rw c (record { seen = λ w d. h.seen (ap waits e) d; roused = λ w d. ground arith })
  | inr c ↦ rw c (elim (Bool-cases spurious) [
    | inl k ↦ rw k (record { seen = λ w d. h.seen (ap waits e) d; roused = λ w d. ground arith })
    | inr k ↦ rw k (record {
      seen = h.seen;
      roused = λ w d. subst (λ b. (0 < s.unparking) ⊎ (b ≡ true)) c (h.roused w d);
    })
  ])
]
thread-Inv spurious returned s e h = h

wake-Inv : (b : Bool) (s : BlockOn) → InvOf s → InvOf (wake b s)
unfolding wake
wake-Inv b s h = record { seen = λ w d. inl (omega arith); roused = h.roused }

store-Inv : (n : ℕ) (s : BlockOn) → s.storing ≡ n → InvOf s → InvOf (store n s)
unfolding store
store-Inv zero s e h = h
store-Inv (suc n) s e h = record { seen = λ w d. inr refl; roused = λ w d. inl (omega arith) }

unpark-Inv : (n : ℕ) (s : BlockOn) → s.unparking ≡ n → InvOf s → InvOf (unpark n s)
unfolding unpark
unpark-Inv zero s e h = h
unpark-Inv (suc n) s e h = record { seen = h.seen; roused = λ w d. inr refl }

step-Inv : (e : Event) (s : BlockOn) → InvOf s → InvOf (step e s)
unfolding step
step-Inv (thread spurious) s h = thread-Inv spurious s.pc s refl h
step-Inv (wakes b) s h = wake-Inv b s h
step-Inv stores s h = store-Inv s.storing s refl h
step-Inv unparks s h = unpark-Inv s.unparking s refl h

run-Inv : (es : List Event) (s : BlockOn) → InvOf s → InvOf (run es s)
unfolding run
run-Inv [] s h = h
run-Inv (e ∷ es) s h = run-Inv es (step e s) (step-Inv e s h)

new-Inv : InvOf new
unfolding new
new-Inv = record { seen = λ w d. ground arith; roused = λ w d. ground arith }

-- In any interleaving of the thread with wake-ups, when no waker is in the middle of its call and the
-- thread is parked without a permit, the future is not ready: `block_on` never sleeps on a future that
-- was completed and woken.
pub run-never_stuck :
    (es : List Event)
    → (run es new).storing ≡ 0
    → (run es new).unparking ≡ 0
    → (run es new).pc ≡ parked
    → (run es new).permit ≡ false
    → (run es new).completed ≡ false
run-never_stuck es a b c d =
    let s = run es new in
    let h = run-Inv es new new-Inv in
    elim (Bool-cases s.completed) [
      | inl e ↦ elim (h.seen (ap waits c) e) [
        | inl l ↦ ground (arith, a, l)
        | inr w ↦ elim (h.roused (ap is_parked c) w) [
          | inl l ↦ ground (arith, b, l)
          | inr p ↦ ground (arith, d, p)
        ]
      ]
      | inr e ↦ e
    ]
