-- ===== src/Base/Heap/Laws.antt =====
-- What a pop gives: a greatest entry, and all the others.
use Prim.Native.Nat.{suc}
use mathlib.Core.Path.{◌≡◌, refl, sym, ap, subst, ◌∙◌}
use mathlib.Core.Logic.{inl, inr}
use mathlib.Core.Bool.{true}
use mathlib.Core.Option.{Option, none, some, some-injective}
use mathlib.Core.Option
use mathlib.Core.List.{List, [], ◌∷◌, Perm}
use mathlib.Core.List.Perm
use native.Mathlib.Omega.{arith}
use rust_base.Base.Tests.{Bool-cases}
use rust_base.Base.Lists.{All, All-map, length}
use rust_base.Base.Order.{Ord, le}
use rust_base.Base.Heap.{select, pop, peek}

module _ {ℓ} {A : Type ℓ} ⦃o : Ord A⦄ where
  select-perm : (x : A) (xs : List A) → Perm (x ∷ xs) ((select x xs).0 ∷ (select x xs).1)
  unfolding select
  select-perm x [] = Perm.rfl
  select-perm x (y ∷ ys) = elim (Bool-cases (le (select y ys).0 x)) [
    | inl e ↦ rw e (Perm.cons x (select-perm y ys))
    | inr e ↦ rw e (Perm.trans (Perm.cons x (select-perm y ys)) (Perm.swap _ x _))
  ]

  select-All {κ} :
      (P : A → Type κ) (x : A) (xs : List A)
      → P x
      → All P xs
      → P (select x xs).0 × All P (select x xs).1
  unfolding select
  select-All P x [] h k = (h, k)
  select-All P x (y ∷ ys) h k = elim (Bool-cases (le (select y ys).0 x)) [
    | inl e ↦ rw e (h, select-All P y ys k.0 k.1)
    | inr e ↦ let (hm, hr) = select-All P y ys k.0 k.1 in rw e (hm, (h, hr))
  ]

  All-select {κ} :
      (P : A → Type κ) (x : A) (xs : List A)
      → P (select x xs).0
      → All P (select x xs).1
      → P x × All P xs
  unfolding select
  All-select P x [] h k = (h, k)
  All-select P x (y ∷ ys) h k = elim (Bool-cases (le (select y ys).0 x)) [
    | inl e ↦ let (hm, hr) = rw e at k in (rw e at h, All-select P y ys hm hr)
    | inr e ↦ let (hx, hr) = rw e at k in (hx, All-select P y ys (rw e at h) hr)
  ]

  select-greatest : (x : A) (xs : List A) → All (λ y. le y (select x xs).0 ≡ true) (select x xs).1
  unfolding select
  select-greatest x [] = tt
  select-greatest x (y ∷ ys) = elim (Bool-cases (le (select y ys).0 x)) [
    | inl e ↦ rw e (
      e,
      All-map _ _ (λ a h. o.trans a (select y ys).0 x h e) (select y ys).1 (select-greatest y ys),
    )
    | inr e ↦
        rw e ((elim (o.total (select y ys).0 x) [ inl h ↦ cc | inr h ↦ h ]), select-greatest y ys)
  ]

  select-length : (x : A) (xs : List A) → length (select x xs).1 ≡ length xs
  unfolding select
  select-length x [] = refl
  select-length x (y ∷ ys) = ground (arith, select-length y ys)

  pub pop-perm : (h : List A) {m : A} {rest : List A} → pop h ≡ some (m, rest) → Perm h (m ∷ rest)
  unfolding pop
  pop-perm [] e = cc
  pop-perm (x ∷ xs) {m} {rest} e =
      subst (λ (p : A × List A). Perm (x ∷ xs) (p.0 ∷ p.1)) (some-injective _ _ e)
        (select-perm x xs)

  pub pop-greatest :
      (h : List A) {m : A} {rest : List A} → pop h ≡ some (m, rest) → All (λ y. le y m ≡ true) rest
  unfolding pop
  pop-greatest [] e = cc
  pop-greatest (x ∷ xs) {m} {rest} e =
      subst (λ (p : A × List A). All (λ y. le y p.0 ≡ true) p.1) (some-injective _ _ e)
        (select-greatest x xs)

  pub pop-All {κ} :
      (P : A → Type κ) (h : List A) {m : A} {rest : List A}
      → pop h ≡ some (m, rest)
      → All P h
      → P m × All P rest
  unfolding pop
  pop-All P [] e a = cc
  pop-All P (x ∷ xs) e a =
      subst (λ (p : A × List A). P p.0 × All P p.1) (some-injective _ _ e)
        (select-All P x xs a.0 a.1)

  pub All-pop {κ} :
      (P : A → Type κ) (h : List A) {m : A} {rest : List A}
      → pop h ≡ some (m, rest)
      → P m
      → All P rest
      → All P h
  unfolding pop
  All-pop P [] e a b = cc
  All-pop P (x ∷ xs) {m} {rest} e a b =
      let f =
        subst (λ (p : A × List A). P p.0 → All P p.1 → P x × All P xs) (some-injective _ _ e)
          (All-select P x xs) in
      f a b

  pub pop-length :
      (h : List A) {m : A} {rest : List A} → pop h ≡ some (m, rest) → length h ≡ suc (length rest)
  unfolding pop
  pop-length [] e = cc
  pop-length (x ∷ xs) e =
      subst (λ (p : A × List A). suc (length xs) ≡ suc (length p.1)) (some-injective _ _ e)
        (ap suc (sym (select-length x xs)))

  pub pop_empty : (h : List A) → pop h ≡ none → h ≡ []
  unfolding pop
  pop_empty [] e = refl
  pop_empty (x ∷ xs) e = cc

  -- `peek` shows the entry that `pop` takes.
  pub peek-pop : (h : List A) → peek h ≡ Option.map (λ p. p.0) (pop h)
  unfolding pop peek
  peek-pop [] = refl
  peek-pop (x ∷ xs) = refl

  pub peek-eq-some : (h : List A) {m : A} {rest : List A} → pop h ≡ some (m, rest) → peek h ≡ some m
  peek-eq-some h e = peek-pop h ∙ ap (Option.map (λ p. p.0)) e

  pub peek-eq-none : (h : List A) → pop h ≡ none → peek h ≡ none
  peek-eq-none h e = peek-pop h ∙ ap (Option.map (λ p. p.0)) e
