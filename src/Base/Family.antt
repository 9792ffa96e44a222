-- ===== src/Base/Family.antt =====
-- Families indexed by numbers, such as a store of objects or the threads of a process.
use Prim.Native.Nat.{ℕ}
use mathlib.Core.Path.{◌≡◌}
use mathlib.Core.Logic.{ite, ◌≢◌}
use native.Mathlib.Decide.{ℕ_discrete}
use native.Mathlib.Omega.{arith}

abbrev pub update {ℓ} : {A : Type ℓ} → (ℕ → A) → ℕ → A → ℕ → A
update f i a j = ite (ℕ_discrete i j) a (f j)

module _ {ℓ} {A : Type ℓ} (f : ℕ → A) where
  pub update_self : (i : ℕ) (a : A) → update f i a i ≡ a
  update_self i a = ground arith

  pub update-ne : (i j : ℕ) (a : A) → i ≢ j → update f i a j ≡ f j
  update-ne i j a h = ground arith

  -- A function of an updated family.
  pub map-update {κ} :
      {B : Type κ} (g : A → B) (i : ℕ) (a : A) (j : ℕ)
      → g (update f i a j) ≡ update (λ k. g (f k)) i (g a) j
  map-update g i a j = ground arith
