-- ===== src/Base/Heap.antt =====
-- `BinaryHeap` of the standard library, as the collection that it shows: `pop` takes a greatest
-- entry. The library leaves open which of several greatest entries that is; here it is the newest,
-- and the laws of the child do not use it.
pub mod Laws
use mathlib.Core.Option.{Option, none, some}
use mathlib.Core.List.{List, [], ◌∷◌}
use rust_base.Base.Tests.{if◌then◌else◌}
use rust_base.Base.Order.{Ord, le}

module _ {ℓ} {A : Type ℓ} ⦃o : Ord A⦄ where
  -- A greatest entry of `x ∷ xs`, and the others.
  unfoldable pub select : A → List A → A × List A
  select x [] = (x, [])
  select x (y ∷ ys) = let (m, rest) = select y ys in if le m x then (x, m ∷ rest) else (m, x ∷ rest)

  unfoldable pub push : A → List A → List A
  push x h = x ∷ h

  unfoldable pub pop : List A → Option (A × List A)
  unfolding select
  pop [] = none
  pop (x ∷ xs) = some (select x xs)

  unfoldable pub peek : List A → Option A
  unfolding select
  peek [] = none
  peek (x ∷ xs) = some (select x xs).0
