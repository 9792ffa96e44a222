-- ===== src/Async/Local.antt =====
-- The values that belong to a task, of rust_async/local.rs: `Tagged`, which names its task to the thread
-- while it is polled, and `LocalKey`. A set of values (`TaskLocals`) and a runtime are numbers, and so is
-- a key.
pub mod Isolated
pub mod Tests
use rust_base.Base.{ℕ, ◌==◌, Option, none, some, update}

pub record Context : Type 0 where
  pub locals : ℕ
  pub runtime : ℕ

-- `current` is `CURRENT` of the thread, `maps` the values of each set.
pub record Thread : Type 0 where
  pub current : Option Context
  pub maps : ℕ → ℕ → Option ℕ

-- `CurrentGuard::set`, and its drop, which puts back what was there.
unfoldable pub set : Context → Thread → Thread
set c t = record t { current = some c }

unfoldable pub restore : Option Context → Thread → Thread
restore prev t = record t { current = prev }

unfoldable pub current_runtime : Thread → Option ℕ
current_runtime t = elim t.current [ none ↦ none | some c ↦ some c.runtime ]

-- `or_insert_with`
abbrev pub or_init : ℕ → Option ℕ → ℕ
or_init init none = init
or_init init (some v) = v

-- `LocalKey::with`, of a closure that may change the value inside; outside of a task it panics.
unfoldable pub local_with : ℕ → ℕ → (ℕ → ℕ) → Option Context → Thread → Option Thread
local_with key init f none t = none
local_with key init f (some c) t = some (record t {
  maps =
      update t.maps c.locals
        (update (t.maps c.locals) key (some (f (or_init init (t.maps c.locals key)))));
})

-- What a poll does with the values: it uses them, and polls other tagged futures in the middle.
pub data Body : Type 0 where
  ends : Body
  withs : ℕ → ℕ → (ℕ → ℕ) → Body → Body
  polls : Context → Body → Body → Body

abbrev pub and_then : Option Thread → (Thread → Option Thread) → Option Thread
and_then none rest = none
and_then (some t) rest = rest t

-- The poll of a `Tagged` sets its context around the poll of the future inside.
unfoldable pub exec : Body → Thread → Option Thread
unfolding local_with set restore
exec ends t = some t
exec (withs key init f rest) t = and_then (local_with key init f t.current t) (exec rest)
exec (polls c inner rest) t = and_then (exec inner (set c t)) (λ u. exec rest (restore t.current u))
