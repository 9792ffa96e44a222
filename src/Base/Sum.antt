-- ===== src/Base/Sum.antt =====
-- The sum of a family of numbers below a bound.
use Prim.Native.Nat.{ℕ, zero, suc, ◌+◌, ◌<◌, ◌≤◌}
use mathlib.Core.Path.{◌≡◌, refl, sym, subst}
use mathlib.Core.Logic.{◌≢◌}
use native.Mathlib.Omega.{arith}
use native.Mathlib.Decide.{ℕ_discrete}

abbrev pub sum : ℕ → (ℕ → ℕ) → ℕ
sum zero f = 0
sum (suc n) f = sum n f + f n

pub sum_next : (n : ℕ) (f : ℕ → ℕ) → sum (n + 1) f ≡ sum n f + f n
sum_next n f = let e : n + 1 ≡ suc n = omega arith in rw e refl

pub sum_same : (n : ℕ) (f g : ℕ → ℕ) → ((t : ℕ) → t < n → f t ≡ g t) → sum n f ≡ sum n g
sum_same zero f g h = refl
sum_same (suc n) f g h = omega (arith, sum_same n f g (λ t k. h t (omega arith)), h n (omega arith))

pub sum_zero : (n : ℕ) → sum n (λ t. 0) ≡ 0
sum_zero zero = refl
sum_zero (suc n) = omega (arith, sum_zero n)

pub sum_change :
    (n : ℕ) (f g : ℕ → ℕ) (t : ℕ)
    → t < n
    → ((u : ℕ) → t ≢ u → f u ≡ g u)
    → sum n f + g t ≡ sum n g + f t
sum_change zero f g t k h = absurd (omega arith)
sum_change (suc n) f g t k h = elim (ℕ_discrete t n) [
  | yes e ↦
      let same = sum_same n f g (λ u l. h u (λ p. omega arith)) in
      subst (λ v. sum n f + f n + g v ≡ sum n g + g n + f v) (sym e) (omega arith)
  | no ne ↦ omega (arith, sum_change n f g t (omega arith) h, h n ne)
]

-- One of the terms.
pub sum_at : (n : ℕ) (f : ℕ → ℕ) (t : ℕ) → t < n → f t ≤ sum n f
sum_at zero f t k = absurd (omega arith)
sum_at (suc n) f t k = elim (ℕ_discrete t n) [
  | yes e ↦ subst (λ v. f v ≤ sum n f + f n) (sym e) (omega arith)
  | no ne ↦ omega (arith, sum_at n f t (omega arith))
]
