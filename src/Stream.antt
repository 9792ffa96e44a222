-- ===== src/Stream.antt =====
-- The combinators of rust_async/stream.rs. The stream inside a combinator is given by the answers that
-- its `poll_next` will give, one for each poll, any finite number of them; it is pending after those.
-- A closure is a function of the item; the calls that `for_each` makes are listed.
pub mod Items
pub mod Interval
mod Tests
use rust_base.Base.{ℕ, ◌-◌, ◌==◌, Bool, Option, none, some, List, [], ◌∷◌, ◌++◌, if◌then◌else◌}
use rust_base.Sync.{Poll, ready, pending}

abbrev pub Source : Type 0 → Type 0
Source A = List (Poll (Option A))

pub record Take (A : Type 0) : Type 0 where
  pub stream : Source A
  pub remaining : ℕ

pub record Fold (A : Type 0) (B : Type 0) : Type 0 where
  pub stream : Source A
  pub acc : Option B

pub record Collect (A : Type 0) : Type 0 where
  pub stream : Source A
  pub items : List A

pub record ForEach (A : Type 0) : Type 0 where
  pub stream : Source A
  pub calls : List A

module _ {A : Type 0} where
  abbrev pub poll_next : Source A → Poll (Option A) × Source A
  poll_next [] = (pending, [])
  poll_next (p ∷ s) = (p, s)

  -- The loop goes on to the next answer when the predicate refuses an item.
  unfoldable pub filter_poll : (A → Bool) → Source A → Poll (Option A) × Source A
  filter_poll p [] = (pending, [])
  filter_poll p (pending ∷ s) = (pending, s)
  filter_poll p (ready none ∷ s) = (ready none, s)
  filter_poll p (ready (some a) ∷ s) =
      let rest = filter_poll p s in if p a then (ready (some a), s) else rest

  abbrev pub taken : ℕ → Poll (Option A) × Source A → Poll (Option A) × Take A
  taken n (ready (some a), s) = (ready (some a), record { stream = s; remaining = n - 1 })
  taken n (ready none, s) = (ready none, record { stream = s; remaining = n })
  taken n (pending, s) = (pending, record { stream = s; remaining = n })

  unfoldable pub take_poll : Take A → Poll (Option A) × Take A
  take_poll t = if t.remaining == 0 then (ready none, t) else taken t.remaining (poll_next t.stream)

  -- `Poll::Ready` hands the vector out and leaves an empty one.
  unfoldable pub collect_loop : Source A → List A → Poll (List A) × Collect A
  collect_loop [] items = (pending, record { stream = []; items = items })
  collect_loop (pending ∷ s) items = (pending, record { stream = s; items = items })
  collect_loop (ready none ∷ s) items = (ready items, record { stream = s; items = [] })
  collect_loop (ready (some a) ∷ s) items = collect_loop s (items ++ a ∷ [])

  unfoldable pub collect_poll : Collect A → Poll (List A) × Collect A
  unfolding collect_loop
  collect_poll c = collect_loop c.stream c.items

  unfoldable pub for_each_loop : Source A → List A → Poll Unit × ForEach A
  for_each_loop [] calls = (pending, record { stream = []; calls = calls })
  for_each_loop (pending ∷ s) calls = (pending, record { stream = s; calls = calls })
  for_each_loop (ready none ∷ s) calls = (ready tt, record { stream = s; calls = calls })
  for_each_loop (ready (some a) ∷ s) calls = for_each_loop s (calls ++ a ∷ [])

  unfoldable pub for_each_poll : ForEach A → Poll Unit × ForEach A
  unfolding for_each_loop
  for_each_poll e = for_each_loop e.stream e.calls

module _ {A : Type 0} {B : Type 0} where
  abbrev pub mapped : (A → B) → Poll (Option A) → Poll (Option B)
  mapped f (ready (some a)) = ready (some (f a))
  mapped f (ready none) = ready none
  mapped f pending = pending

  unfoldable pub map_poll : (A → B) → Source A → Poll (Option B) × Source A
  map_poll f s = (mapped f (poll_next s).0, (poll_next s).1)

  -- `none` is the panic of `expect`: the future was polled after its completion.
  unfoldable pub fold_loop : (B → A → B) → Source A → Option B → Option (Poll B × Fold A B)
  fold_loop f [] acc = some (pending, record { stream = []; acc = acc })
  fold_loop f (pending ∷ s) acc = some (pending, record { stream = s; acc = acc })
  fold_loop f (ready none ∷ s) none = none
  fold_loop f (ready none ∷ s) (some b) = some (ready b, record { stream = s; acc = none })
  fold_loop f (ready (some a) ∷ s) none = none
  fold_loop f (ready (some a) ∷ s) (some b) = fold_loop f s (some (f b a))

  unfoldable pub fold_poll : (B → A → B) → Fold A B → Option (Poll B × Fold A B)
  unfolding fold_loop
  fold_poll f s = fold_loop f s.stream s.acc

-- The constructors: an option, nothing, a value and the items that are left of an iterator are what
-- the streams hold.
module _ {A : Type 0} where
  unfoldable pub once_poll : Option A → Poll (Option A) × Option A
  once_poll value = (ready value, none)

  unfoldable pub empty_poll : Poll (Option A)
  empty_poll = ready none

  unfoldable pub repeat_poll : A → Poll (Option A) × A
  repeat_poll value = (ready (some value), value)

  unfoldable pub from_iter_poll : List A → Poll (Option A) × List A
  from_iter_poll [] = (ready none, [])
  from_iter_poll (a ∷ xs) = (ready (some a), xs)
