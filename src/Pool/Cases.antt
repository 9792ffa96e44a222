-- ===== src/Pool/Cases.antt =====
-- Case rules: what has to be shown of the state after a post, branch by branch.
use rust_base.Base.{ℕ, Bool, true, false}
use rust_base.Task.{TaskTraits}
use rust_base.TaskTracker
use rust_base.TaskTracker.{TaskTracker}
use rust_base.Pool.Callback.{Body, Closure, wrap}
use rust_base.Pool.Post.{with_tracker, one_shot, one_shot_delayed, post_task, post_delayed_task}
use rust_base.Pool.{System}

module _ (P : System → Type 0) (s : System) where
  with_tracker-cases :
      (r : Bool × TaskTracker) (go : System → System)
      → ((t : TaskTracker) → P (record s { tracker = t }))
      → ((t : TaskTracker) → P (go (record s { tracker = t })))
      → P (with_tracker s r go).1
  with_tracker-cases (false, t) go refused accepted = refused t
  with_tracker-cases (true, t) go refused accepted = accepted t

  pub post_task-cases :
      (traits : TaskTraits) (b : Body)
      → ((t : TaskTracker) → P (record s { tracker = t }))
      → ((t : TaskTracker) (c : Closure) → P (one_shot traits c (record s { tracker = t })))
      → P (post_task traits b s).1
  unfolding post_task
  post_task-cases traits b refused accepted =
      with_tracker-cases (TaskTracker.will_post_task traits s.tracker)
        (one_shot traits (wrap s.monitored traits b)) refused
        (λ t. accepted t (wrap s.monitored traits b))

  pub post_delayed_task-cases :
      (traits : TaskTraits) (b : Body) (delay : ℕ)
      → ((t : TaskTracker) → P (record s { tracker = t }))
      → ((t : TaskTracker) (c : Closure)
          → P (one_shot_delayed traits c delay (record s { tracker = t })))
      → P (post_delayed_task traits b delay s).1
  unfolding post_delayed_task
  post_delayed_task-cases traits b delay refused accepted =
      with_tracker-cases (TaskTracker.will_post_task traits s.tracker)
        (one_shot_delayed traits (wrap s.monitored traits b) delay) refused
        (λ t. accepted t (wrap s.monitored traits b))
