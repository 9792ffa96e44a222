-- ===== src/Sequence/Claim.antt =====
-- `has_worker` as `will_run_task` reads it.
use rust_base.Base.{◌≡◌, ap, true, false, if◌then◌else◌, Bool}
use rust_base.Sequence.{Sequence, RunStatus, disallowed, allowed_not_saturated, will_run_task}

module _ {C : Type 0} (q : Sequence C) where
  answer : Bool → RunStatus × Sequence C
  answer b = (if b then disallowed else allowed_not_saturated, record q { has_worker = true })

  -- The first worker to ask gets the sequence.
  pub will_run_task_free :
      q.has_worker ≡ false
      → will_run_task q ≡ (allowed_not_saturated, record q { has_worker = true })
  unfolding will_run_task answer
  will_run_task_free e = ap answer e

  -- A second one is refused, and changes nothing.
  pub will_run_task_taken :
      q.has_worker ≡ true → will_run_task q ≡ (disallowed, record q { has_worker = true })
  unfolding will_run_task answer
  will_run_task_taken e = ap answer e
