-- ===== src/Sync/Waiters.antt =====
-- `Waiters` of rust_async/sync.rs: a set of parked wakers. A waker is the number of the task that it
-- wakes. The `BTreeMap` is a list of entries, by ascending key.
use rust_base.Base.{
  ℕ, ◌+◌, ◌≡◌, refl, ap, true, Option, none, some, List, [], ◌∷◌, map, any, ◌==◌, ltb,
  if◌then◌else◌, arith,
}

pub record Waiters : Type 0 where
  pub next : ℕ
  pub map : List (ℕ × ℕ)

abbrev pub default : Waiters
default = record { next = 0; map = [] }

abbrev pub get : ℕ → List (ℕ × ℕ) → Option ℕ
get k [] = none
get k ((j, w) ∷ m) = if j == k then some w else get k m

abbrev pub insert : ℕ → ℕ → List (ℕ × ℕ) → List (ℕ × ℕ)
insert k w [] = (k, w) ∷ []
insert k w ((j, v) ∷ m) =
    let rest = insert k w m in
    if ltb k j then (k, w) ∷ (j, v) ∷ m else (if k == j then (k, w) ∷ m else (j, v) ∷ rest)

abbrev pub remove : ℕ → List (ℕ × ℕ) → List (ℕ × ℕ)
remove k [] = []
remove k ((j, v) ∷ m) = let rest = remove k m in if j == k then rest else (j, v) ∷ rest

-- The identifier that the future has from then on, and the new set.
unfoldable pub park : Option ℕ → ℕ → Waiters → Option ℕ × Waiters
park none waker ws =
    (some ws.next, record ws { next = ws.next + 1; map = insert ws.next waker ws.map })
park (some key) waker ws = (some key, record ws { map = insert key waker ws.map })

unfoldable pub unpark : Option ℕ → Waiters → Waiters
unpark none ws = ws
unpark (some k) ws = record ws { map = remove k ws.map }

-- The tasks that are woken, in order, and the new set.
unfoldable pub wake_all : Waiters → List ℕ × Waiters
wake_all ws = (map (λ e. e.1) ws.map, record ws { map = [] })

abbrev pub wake_first : Waiters → List (ℕ × ℕ) → List ℕ × Waiters
wake_first ws [] = ([], ws)
wake_first ws ((key, w) ∷ _) = (w ∷ [], record ws { map = remove key ws.map })

unfoldable pub wake_one : Waiters → List ℕ × Waiters
wake_one ws = wake_first ws ws.map

pub get-insert :
    (k w j : ℕ) (m : List (ℕ × ℕ)) → get j (insert k w m) ≡ (if k == j then some w else get j m)
get-insert k w j [] = refl
get-insert k w j ((i, v) ∷ m) = ground (arith, get-insert k w j m)

pub get-remove :
    (k j : ℕ) (m : List (ℕ × ℕ)) → get j (remove k m) ≡ (if k == j then none else get j m)
get-remove k j [] = ground arith
get-remove k j ((i, v) ∷ m) = ground (arith, get-remove k j m)

-- A waker that is in the map is among those that `wake_all` wakes.
pub get-woken :
    (k f : ℕ) (m : List (ℕ × ℕ)) → get k m ≡ some f → any (λ g. g == f) (map (λ e. e.1) m) ≡ true
get-woken k f [] e = absurd cc
get-woken k f ((i, v) ∷ m) e = ground (arith, get-woken k f m)

pub unpark-empty : (ws : Waiters) (id : Option ℕ) → ws.map ≡ [] → (unpark id ws).map ≡ []
unfolding unpark
unpark-empty ws none e = e
unpark-empty ws (some k) e = ap (remove k) e
