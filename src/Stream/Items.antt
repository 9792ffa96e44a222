-- ===== src/Stream/Items.antt =====
-- What the combinators of rust_async/stream.rs make of the items of the stream inside.
use rust_base.Base.{
  ℕ, zero, suc, ◌-◌, ◌≤◌, ◌≡◌, refl, sym, ap, ◌∙◌, Bool, true, false, Option, none, some, List, [],
  ◌∷◌, ◌++◌, ◌==◌, length, if◌then◌else◌, ltb, arith, inl, inr, Bool-cases, append-nil,
  append_assoc, subst,
}
use rust_base.Sync.{Poll, ready, pending}
use rust_base.Stream.{
  Source, Fold, Collect, filter_poll, take_poll, taken, collect_loop, collect_poll, fold_loop,
  fold_poll, poll_next, from_iter_poll,
}

module _ {A : Type 0} where
  -- The items before the end of the stream.
  abbrev pub items : Source A → List A
  items [] = []
  items (pending ∷ s) = items s
  items (ready none ∷ s) = []
  items (ready (some a) ∷ s) = a ∷ items s

  -- How often the stream makes its consumer wait before it ends.
  abbrev pub waits : Source A → ℕ
  waits [] = 0
  waits (pending ∷ s) = suc (waits s)
  waits (ready none ∷ s) = 0
  waits (ready (some a) ∷ s) = waits s

  abbrev pub ends : Source A → Bool
  ends [] = false
  ends (pending ∷ s) = ends s
  ends (ready none ∷ s) = true
  ends (ready (some a) ∷ s) = ends s

  abbrev pub kept : (A → Bool) → List A → List A
  kept p [] = []
  kept p (a ∷ xs) = if p a then a ∷ kept p xs else kept p xs

  abbrev pub first : ℕ → List A → List A
  first zero xs = []
  first (suc n) [] = []
  first (suc n) (a ∷ xs) = a ∷ first n xs

module _ {A : Type 0} {B : Type 0} where
  abbrev pub total : (B → A → B) → B → List A → B
  total f b [] = b
  total f b (a ∷ xs) = total f (f b a) xs

  -- The answers to so many polls of a combinator whose state is of the type `B`.
  abbrev pub answers : (B → Poll (Option A) × B) → ℕ → B → Source A
  answers poll zero s = []
  answers poll (suc n) s = (poll s).0 ∷ answers poll n (poll s).1

module _ {A : Type 0} (p : A → Bool) where
  no_items : (n : ℕ) → items (answers (filter_poll p) n []) ≡ []
  unfolding filter_poll
  no_items zero = refl
  no_items (suc n) = no_items n

  -- Polled as often as the stream inside has answers, or more often, a `filter` yields the items that its
  -- predicate accepts, in their order, and ends where the stream inside ends.
  pub items-filter_poll :
      (n : ℕ) (s : Source A) → length s ≤ n → items (answers (filter_poll p) n s) ≡ kept p (items s)
  unfolding filter_poll
  items-filter_poll n [] h = no_items n
  items-filter_poll zero (a ∷ s) h = absurd (omega arith)
  items-filter_poll (suc n) (pending ∷ s) h = items-filter_poll n s (omega arith)
  items-filter_poll (suc n) (ready none ∷ s) h = refl
  items-filter_poll (suc n) (ready (some a) ∷ s) h = elim (Bool-cases (p a)) [
    | inl e ↦ rw e (ap (λ xs. a ∷ xs) (items-filter_poll n s (omega arith)))
    | inr e ↦ rw e (items-filter_poll (suc n) s (omega arith))
  ]

module _ {A : Type 0} {B : Type 0} (f : B → A → B) where
  -- A task that polls the future of `fold` again, at most so many times, while it is pending.
  abbrev pub fold_again : ℕ → Option (Poll B × Fold A B) → Option (Poll B)
  unfolding fold_poll
  fold_again n none = none
  fold_again n (some (ready b, s)) = some (ready b)
  fold_again zero (some (pending, s)) = some pending
  fold_again (suc n) (some (pending, s)) = fold_again n (fold_poll f s)

  -- The future of `fold` on a stream that ends, when it is polled again while it is pending, at most `n`
  -- times: it is still pending if `n` is below the number of times that the stream makes its consumer
  -- wait, and has resolved otherwise, to the items combined from the left. It never panics.
  pub fold_poll-total :
      (n : ℕ) (b : B) (s : Source A)
      → ends s ≡ true
      → fold_again n (fold_poll f (record { stream = s; acc = some b }))
        ≡ some (if ltb n (waits s) then pending else ready (total f b (items s)))
  unfolding fold_poll fold_loop
  fold_poll-total n b [] h = absurd (ground arith)
  fold_poll-total zero b (pending ∷ s) h = ground arith
  fold_poll-total (suc n) b (pending ∷ s) h = ground (arith, fold_poll-total n b s h)
  fold_poll-total n b (ready none ∷ s) h = ground arith
  fold_poll-total n b (ready (some a) ∷ s) h = fold_poll-total n (f b a) s h

module _ {A : Type 0} where
  take_none :
      (n : ℕ) (s : Source A)
      → items (answers take_poll n (record { stream = s; remaining = 0 })) ≡ []
  unfolding take_poll
  take_none zero s = refl
  take_none (suc n) s = refl

  take_step :
      (n k : ℕ) (s : Source A)
      → items (answers take_poll (suc n) (record { stream = s; remaining = suc k }))
        ≡ items
            ((taken (suc k) (poll_next s)).0 ∷ answers take_poll n (taken (suc k) (poll_next s)).1)
  unfolding take_poll
  take_step n k s =
      let busy : (suc k == 0) ≡ false = ground arith in
      let first_poll : take_poll (record { stream = s; remaining = suc k })
          ≡ taken (suc k) (poll_next s) =
        ap
          (λ b.
            if b
            then (ready none, record { stream = s; remaining = suc k })
            else taken (suc k) (poll_next s))
          busy in
      ap (λ r. items {A = A} (r.0 ∷ answers take_poll n r.1)) first_poll

  take_empty :
      (n k : ℕ) → items {A = A} (answers take_poll n (record { stream = []; remaining = k })) ≡ []
  unfolding take_poll
  take_empty zero k = refl
  take_empty (suc n) zero = refl
  take_empty (suc n) (suc k) = take_step n k [] ∙ take_empty n (suc k)

  -- Polled as often as the stream inside has answers, or more often, a `take` of `k` yields the first
  -- `k` items of the stream inside, or all of them when it ends before.
  pub items-take_poll :
      (n k : ℕ) (s : Source A)
      → length s ≤ n
      → items (answers take_poll n (record { stream = s; remaining = k })) ≡ first k (items s)
  unfolding take_poll
  items-take_poll n zero s h = take_none n s
  items-take_poll n (suc k) [] h = take_empty n (suc k)
  items-take_poll zero (suc k) (a ∷ s) h = absurd (omega arith)
  items-take_poll (suc n) (suc k) (pending ∷ s) h =
      take_step n k (pending ∷ s) ∙ items-take_poll n (suc k) s (omega arith)
  items-take_poll (suc n) (suc k) (ready none ∷ s) h = take_step n k (ready none ∷ s)
  items-take_poll (suc n) (suc k) (ready (some a) ∷ s) h =
      let one_less : suc k - 1 ≡ k = omega arith in
      take_step n k (ready (some a) ∷ s)
      ∙ ap (λ j. a ∷ items {A = A} (answers take_poll n (record { stream = s; remaining = j })))
          one_less
      ∙ ap (λ xs. a ∷ xs) (items-take_poll n k s (omega arith))

  -- A task that polls the future of `collect` again, at most so many times, while it is pending.
  abbrev pub collect_again : ℕ → Poll (List A) × Collect A → Poll (List A)
  unfolding collect_poll
  collect_again n (ready xs, c) = ready xs
  collect_again zero (pending, c) = pending
  collect_again (suc n) (pending, c) = collect_again n (collect_poll c)

  -- The future of `collect` on a stream that ends, with some items collected before, resolves to those
  -- and all items of the stream after them, at the poll after as many pending ones as the stream makes
  -- it wait.
  pub collect_poll-items :
      (xs : List A) (s : Source A)
      → ends s ≡ true
      → collect_again (waits s) (collect_poll (record { stream = s; items = xs }))
        ≡ ready (xs ++ items s)
  unfolding collect_poll collect_loop
  collect_poll-items xs [] h = absurd (ground arith)
  collect_poll-items xs (pending ∷ s) h = collect_poll-items xs s h
  collect_poll-items xs (ready none ∷ s) h = ap ready (sym (append-nil xs))
  collect_poll-items xs (ready (some a) ∷ s) h =
      collect_poll-items (xs ++ a ∷ []) s h ∙ ap ready (append_assoc xs (a ∷ []) (items s))

  -- The answers to as many polls of `from_iter` as it takes to end.
  abbrev pub listed : List A → Source A
  listed xs = answers from_iter_poll (suc (length xs)) xs

  listed-items : (xs : List A) → items (listed xs) ≡ xs
  unfolding from_iter_poll
  listed-items [] = refl
  listed-items (a ∷ xs) = ap (λ ys. a ∷ ys) (listed-items xs)

  listed-ends : (xs : List A) → ends (listed xs) ≡ true
  unfolding from_iter_poll
  listed-ends [] = refl
  listed-ends (a ∷ xs) = listed-ends xs

  listed-waits : (xs : List A) → waits (listed xs) ≡ 0
  unfolding from_iter_poll
  listed-waits [] = refl
  listed-waits (a ∷ xs) = listed-waits xs

  -- The future of `collect` on `from_iter` of a list resolves at the first poll to that list.
  pub collect_poll-from_iter_poll :
      (xs : List A)
      → collect_again 0 (collect_poll (record { stream = listed xs; items = [] })) ≡ ready xs
  collect_poll-from_iter_poll xs =
      let c = collect_poll (record { stream = listed xs; items = [] }) in
      subst (λ k. collect_again k c ≡ ready (items (listed xs))) (listed-waits xs)
        (collect_poll-items [] (listed xs) (listed-ends xs))
      ∙ ap ready (listed-items xs)
