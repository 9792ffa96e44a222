-- ===== src/Async/Loop.antt =====
-- The `loop` of a poll function: turns that return, or go round again.
use rust_base.Base.{ℕ, zero, suc, Option, none, some}

pub data Turn (O S : Type 0) : Type 0 where
  returns : O → S → Turn O S
  again : S → Turn O S

-- On the number of turns that it may take.
abbrev pub turns : {O S : Type 0} → (S → Turn O S) → ℕ → S → Option (O × S)
turns turn zero s = none
turns turn (suc n) s = elim (turn s) [ returns o t ↦ some (o, t) | again t ↦ turns turn n t ]

-- The loop returns, and what it returns is as stated.
abbrev pub Returns : {O S : Type 0} → (O → S → Type 0) → Option (O × S) → Type 0
Returns P none = ⊥
Returns P (some (o, s)) = P o s

-- What holds after a turn, when the loop may take some more.
abbrev pub After : {O S : Type 0} → (S → Turn O S) → (O → S → Type 0) → ℕ → Turn O S → Type 0
After turn P n (returns o s) = P o s
After turn P n (again s) = Returns P (turns turn n s)

module _ {O S : Type 0} (turn : S → Turn O S) (P : O → S → Type 0) where
  pub turns-Returns : (n : ℕ) (s : S) → After turn P n (turn s) → Returns P (turns turn (suc n) s)
  turns-Returns n s h = go (turn s) h
    where
      go :
          (t : Turn O S)
          → After turn P n t
          → Returns P (elim t [ returns o u ↦ some (o, u) | again u ↦ turns turn n u ])
      go (returns o u) h = h
      go (again u) h = h
