-- ===== src/Async/Local/Tests.antt =====
-- Runs of tagged futures of rust_async/local.rs.
use rust_base.Base.{ℕ, suc, ◌≡◌, refl, Option, none, some, arith}
use rust_base.Async.Local.{Thread, Body, ends, withs, polls, exec}
use rust_base.Async.Local.Isolated.{Leaves, Same, exec-Leaves}

abbrev idle : Thread
idle = record { current = none; maps = λ id key. none }

-- A task that adds to its value, polls another that does so too, and adds again.
abbrev nested : Body
nested =
    polls (record { locals = 1; runtime = 0 })
      (withs 5 10 suc
        (polls (record { locals = 2; runtime = 0 }) (withs 5 10 suc ends) (withs 5 10 suc ends)))
      ends

abbrev value : Option Thread → ℕ → Option ℕ
value none id = none
value (some t) id = t.maps id 5

nested_values : (value (exec nested idle) 1 ≡ some 12) × (value (exec nested idle) 2 ≡ some 11)
unfolding exec native.Mathlib.Decide.ℕ_discrete
nested_values = (refl, refl)

exec-Leaves_example : Leaves (Same 3 idle) (exec nested idle)
exec-Leaves_example = exec-Leaves nested idle 3 (ground arith, ((ground arith, (tt, tt)), tt)) tt
