-- ===== src/Pool/Exclusion.antt =====
-- The flag `has_worker` of a sequence (rust_task/thread_pool/sequence.rs) as a lock: whoever sets it
-- from false to true owns the sequence, until it clears the flag in `did_process_task`.
pub mod Step
pub mod Reach
use rust_base.Base.{
  ℕ, suc, ◌≤◌, ◌<◌, ◌≡◌, ◌≢◌, refl, sym, ◌∙◌, Bool, true, false, Option, none, some, update, inl,
  inr, arith,
}
use native.Mathlib.Decide.{ℕ_discrete}
use rust_base.Pool.{
  Pc, idle, exited, got, claimed, running, finished, checking, requeue, panicked, System,
}
use rust_base.Pool.InRange.{InRange}

-- The sequence that a worker has claimed and not given back.
abbrev pub owns : Pc → Option ℕ
owns (claimed t) = some t
owns (running t _) = some t
owns (finished t) = some t
owns (panicked t) = some t
owns _ = none

pub record Exclusion (has : ℕ → Bool) (own : ℕ → Option ℕ) : Type 0 where
  pub owned : (i t : ℕ) → own i ≡ some t → has t ≡ true
  pub unique : (i j t : ℕ) → own i ≡ some t → own j ≡ some t → i ≡ j
  pub flagged : (t : ℕ) → has t ≡ true → (i : ℕ) × (own i ≡ some t)

module _ {has has' : ℕ → Bool} {own own' : ℕ → Option ℕ} (x : Exclusion has own) where
  pub Exclusion-same : ((t : ℕ) → has' t ≡ has t) → ((i : ℕ) → own' i ≡ own i) → Exclusion has' own'
  Exclusion-same h o = record {
    owned = λ i t e. h t ∙ x.owned i t (sym (o i) ∙ e);
    unique = λ i j t e f. x.unique i j t (sym (o i) ∙ e) (sym (o j) ∙ f);
    flagged = λ t e. let (i, f) = x.flagged t (sym (h t) ∙ e) in (i, o i ∙ f);
  }

  pub Exclusion-claim :
      (i t : ℕ)
      → has t ≡ false
      → own i ≡ none
      → ((u : ℕ) → has' u ≡ update has t true u)
      → ((j : ℕ) → own' j ≡ update own i (some t) j)
      → Exclusion has' own'
  Exclusion-claim i t e f h o = record {
    owned = λ j u p. ground (arith, h u, o j, x.owned j u);
    unique = λ j k u p q. ground (arith, o j, o k, x.unique j k u, x.owned j u, x.owned k u);
    flagged = λ u p. elim (ℕ_discrete t u) [
      | yes same ↦ (i, ground (arith, o i))
      | no other ↦ let (j, q) = x.flagged u (ground (arith, h u)) in (j, ground (arith, o j))
    ];
  }

  pub Exclusion-release :
      (i t : ℕ)
      → own i ≡ some t
      → ((u : ℕ) → has' u ≡ update has t false u)
      → ((j : ℕ) → own' j ≡ update own i none j)
      → Exclusion has' own'
  Exclusion-release i t e h o = record {
    owned = λ j u p. ground (arith, h u, o j, x.owned j u, x.unique i j t);
    unique = λ j k u p q. ground (arith, o j, o k, x.unique j k u);
    flagged =
        λ u p. let (j, q) = x.flagged u (ground (arith, h u)) in (j, ground (arith, o j, h u));
  }

abbrev pub flag_of : System → ℕ → Bool
flag_of s t = (s.sequences t).has_worker

abbrev pub owner_of : System → ℕ → Option ℕ
owner_of s i = owns (s.workers i)

pub record IsExclusive (s : System) : Type 0 where
  pub range : InRange s
  pub exclusion : Exclusion (flag_of s) (owner_of s)
  pub fresh : (t : ℕ) → s.next_token ≤ t → flag_of s t ≡ false

module _ {s s' : System} (x : IsExclusive s) (r : InRange s')
    (n : s.next_token ≤ s'.next_token) where
  pub IsExclusive-same :
      ((t : ℕ) → flag_of s' t ≡ flag_of s t)
      → ((i : ℕ) → owner_of s' i ≡ owner_of s i)
      → IsExclusive s'
  IsExclusive-same h o = record {
    range = r;
    exclusion = Exclusion-same x.exclusion h o;
    fresh = λ t k. h t ∙ x.fresh t (omega arith);
  }

  pub IsExclusive-claim :
      (i t : ℕ)
      → t < s.next_token
      → flag_of s t ≡ false
      → owner_of s i ≡ none
      → ((u : ℕ) → flag_of s' u ≡ update (flag_of s) t true u)
      → ((j : ℕ) → owner_of s' j ≡ update (owner_of s) i (some t) j)
      → IsExclusive s'
  IsExclusive-claim i t k e f h o = record {
    range = r;
    exclusion = Exclusion-claim x.exclusion i t e f h o;
    fresh = λ u l. ground (arith, h u, x.fresh u);
  }

  pub IsExclusive-release :
      (i t : ℕ)
      → owner_of s i ≡ some t
      → ((u : ℕ) → flag_of s' u ≡ update (flag_of s) t false u)
      → ((j : ℕ) → owner_of s' j ≡ update (owner_of s) i none j)
      → IsExclusive s'
  IsExclusive-release i t e h o = record {
    range = r;
    exclusion = Exclusion-release x.exclusion i t e h o;
    fresh = λ u l. ground (arith, h u, x.fresh u);
  }
