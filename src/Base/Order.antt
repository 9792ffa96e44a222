-- ===== src/Base/Order.antt =====
-- The trait `Ord` of the standard library: `cmp`, the laws that it asks for, `then` and `Reverse`.
use Prim.Native.Nat.{ℕ, compare, Ordering}
use Prim.Native.Nat.Ordering.{eq, gt}
use mathlib.Core.Path.{◌≡◌}
use mathlib.Core.Logic.{◌⊎◌}
use mathlib.Core.Bool.{Bool, true, false}
use native.Mathlib.Omega.{arith}

abbrev pub then : Ordering → Ordering → Ordering
then eq second = second
then first _ = first

-- Not greater.
abbrev pub at_most : Ordering → Bool
at_most gt = false
at_most _ = true

-- A total preorder: values that are not distinguished need not be equal.
pub record Ord {ℓ} (A : Type ℓ) : Type ℓ where
  pub cmp : A → A → Ordering
  pub total : (a b : A) → (at_most (cmp a b) ≡ true) ⊎ (at_most (cmp b a) ≡ true)
  pub trans :
      (a b c : A) → at_most (cmp a b) ≡ true → at_most (cmp b c) ≡ true → at_most (cmp a c) ≡ true

abbrev pub le {ℓ} : {A : Type ℓ} ⦃o : Ord A⦄ → A → A → Bool
le ⦃o⦄ a b = at_most (o.cmp a b)

-- `std::cmp::Reverse`.
pub record Reverse {ℓ} (A : Type ℓ) : Type ℓ where
  pub value : A

instance abbrev pub reverse_ord {ℓ} : {A : Type ℓ} ⦃o : Ord A⦄ → Ord (Reverse A)
reverse_ord ⦃o⦄ = record {
  cmp = λ a b. o.cmp b.value a.value;
  total = λ a b. o.total b.value a.value;
  trans = λ a b c h k. o.trans c.value b.value a.value k h;
}

-- Two numbers compared one after the other.
abbrev pub lex_cmp : ℕ → ℕ → ℕ → ℕ → Ordering
lex_cmp a b c d = then (compare a c) (compare b d)

pub lex_total :
    (a b c d : ℕ) → (at_most (lex_cmp a b c d) ≡ true) ⊎ (at_most (lex_cmp c d a b) ≡ true)
lex_total a b c d = ground arith

pub lex_trans :
    (a b c d e f : ℕ)
    → at_most (lex_cmp a b c d) ≡ true
    → at_most (lex_cmp c d e f) ≡ true
    → at_most (lex_cmp a b e f) ≡ true
lex_trans a b c d e f h k = ground arith
