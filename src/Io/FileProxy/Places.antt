-- ===== src/Io/FileProxy/Places.antt =====
-- Where the callbacks of a proxy of rust_io/file_proxy.rs stand.
use rust_base.Base.{
  ℕ, zero, suc, ◌+◌, ◌≡◌, refl, ◌⊎◌, Option, none, some, List, [], ◌∷◌, ◌++◌, ◌==◌, if◌then◌else◌,
  arith,
}
use rust_base.Pool.Schedule.{extract}

module _ {A : Type 0} where
  abbrev pub In : A → List A → Type 0
  In a [] = ⊥
  In a (x ∷ xs) = (a ≡ x) ⊎ In a xs

  -- How often a callback stands in a list.
  abbrev pub times : ℕ → List (ℕ × A) → ℕ
  times cb [] = 0
  times cb (x ∷ xs) = (if x.0 == cb then 1 else 0) + times cb xs

  pub times-append :
      (cb : ℕ) (xs ys : List (ℕ × A)) → times cb (xs ++ ys) ≡ times cb xs + times cb ys
  times-append cb [] ys = omega arith
  times-append cb (x ∷ xs) ys = omega (arith, times-append cb xs ys)

  abbrev pub Removed : List (ℕ × A) → Option ((ℕ × A) × List (ℕ × A)) → Type 0
  Removed xs none = Unit
  Removed xs (some (x, rest)) =
      (cb : ℕ) → times cb xs ≡ (if x.0 == cb then 1 else 0) + times cb rest

  pub extract-Removed : (n : ℕ) (xs : List (ℕ × A)) → Removed xs (extract n xs)
  unfolding extract
  extract-Removed n [] = tt
  extract-Removed zero (x ∷ xs) = λ cb. refl
  extract-Removed (suc n) (x ∷ xs) = go (extract n xs) (extract-Removed n xs)
    where
      go :
          (r : Option ((ℕ × A) × List (ℕ × A)))
          → Removed xs r
          → Removed (x ∷ xs) (elim r [ none ↦ none | some (y, rest) ↦ some (y, x ∷ rest) ])
      go none k = tt
      go (some (y, rest)) k = λ cb. omega (arith, k cb)
