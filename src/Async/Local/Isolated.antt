-- ===== src/Async/Local/Isolated.antt =====
-- Polls of tagged futures of rust_async/local.rs leave the thread and other tasks alone.
use rust_base.Base.{ℕ, ◌≡◌, ◌≢◌, refl, sym, ◌∙◌, subst, Option, none, some, arith}
use rust_base.Async.Local.{
  Context, Thread, set, restore, local_with, Body, ends, withs, polls, and_then, exec,
}

-- If there is a thread left, it is as stated.
abbrev pub Leaves : (Thread → Type 0) → Option Thread → Type 0
Leaves P none = Unit
Leaves P (some t) = P t

and_then-Leaves :
    (P Q : Thread → Type 0) (o : Option Thread) (rest : Thread → Option Thread)
    → Leaves P o
    → ((t : Thread) → P t → Leaves Q (rest t))
    → Leaves Q (and_then o rest)
and_then-Leaves P Q none rest h k = tt
and_then-Leaves P Q (some t) rest h k = k t h

-- The body polls no future of this set of values.
abbrev pub Avoids : ℕ → Body → Type 0
Avoids id ends = Unit
Avoids id (withs key init f rest) = Avoids id rest
Avoids id (polls c inner rest) = (c.locals ≢ id) × (Avoids id inner × Avoids id rest)

-- No future of this set is being polled.
abbrev pub Outside : ℕ → Option Context → Type 0
Outside id none = Unit
Outside id (some c) = c.locals ≢ id

local_with-Leaves :
    (key init : ℕ) (f : ℕ → ℕ) (c : Option Context) (t : Thread) (id : ℕ)
    → Outside id c
    → Leaves (λ u. (u.current ≡ t.current) × (u.maps id ≡ t.maps id)) (local_with key init f c t)
unfolding local_with
local_with-Leaves key init f none t id o = tt
local_with-Leaves key init f (some c) t id o = (refl, ground (arith, o))

-- The thread names the same task, and the values of `id` are the same.
abbrev pub Same : ℕ → Thread → Thread → Type 0
Same id t u = (u.current ≡ t.current) × (u.maps id ≡ t.maps id)

Leaves-map :
    (P Q : Thread → Type 0) (o : Option Thread)
    → Leaves P o
    → ((t : Thread) → P t → Q t)
    → Leaves Q o
Leaves-map P Q none h k = tt
Leaves-map P Q (some t) h k = k t h

-- A poll, with all that is polled in the middle of it, leaves the thread naming the task that it named
-- before, and does not touch the values of a task that is not polled.
pub exec-Leaves :
    (body : Body) (t : Thread) (id : ℕ)
    → Avoids id body
    → Outside id t.current
    → Leaves (Same id t) (exec body t)
unfolding exec set restore
exec-Leaves ends t id a o = (refl, refl)
exec-Leaves (withs key init f rest) t id a o =
    and_then-Leaves (Same id t) (Same id t) (local_with key init f t.current t) (exec rest)
      (local_with-Leaves key init f t.current t id o)
      (λ u p.
        Leaves-map (Same id u) (Same id t) (exec rest u)
          (exec-Leaves rest u id a (subst (Outside id) (sym p.0) o))
          (λ v q. (q.0 ∙ p.0, q.1 ∙ p.1)))
exec-Leaves (polls c inner rest) t id (n, (a, b)) o =
    and_then-Leaves (Same id (set c t)) (Same id t) (exec inner (set c t))
      (λ u. exec rest (restore t.current u)) (exec-Leaves inner (set c t) id a n)
      (λ u p.
        Leaves-map (Same id (restore t.current u)) (Same id t) (exec rest (restore t.current u))
          (exec-Leaves rest (restore t.current u) id b o) (λ v q. (q.0, q.1 ∙ p.1)))
