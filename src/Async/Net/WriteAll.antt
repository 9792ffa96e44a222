-- ===== src/Async/Net/WriteAll.antt =====
-- `write_all` of rust_async/net.rs sends the whole buffer in order.
use rust_base.Base.{
  ℕ, zero, suc, ◌≤◌, ◌<◌, ◌≡◌, ◌≢◌, refl, sym, ap, ◌∙◌, subst, Option, none, some, List, [], ◌∷◌,
  ◌++◌, All, append_assoc, append-nil, arith, length, take, drop, take-drop, length-drop,
}
use rust_base.Async.Net.{Result, ok, err, write_all}

-- Sent in order, all of it or up to an error.
abbrev pub Sent : List ℕ → Option (Result Unit × List ℕ) → Type 0
Sent whole none = Unit
Sent whole (some (ok u, sent)) = sent ≡ whole
Sent whole (some (err e, sent)) = (rest : List ℕ) × ((sent ++ rest ≡ whole) × (rest ≢ []))

next-whole :
    (n b : ℕ) (buf sent : List ℕ) → (sent ++ b ∷ take n buf) ++ drop n buf ≡ sent ++ b ∷ buf
next-whole n b buf sent =
    append_assoc sent (b ∷ take n buf) (drop n buf) ∙ ap (λ l. sent ++ b ∷ l) (take-drop n buf)

write_all-Sent :
    (writes : List (Result ℕ)) (buf sent : List ℕ) → Sent (sent ++ buf) (write_all writes buf sent)
unfolding write_all
write_all-Sent writes [] sent = sym (append-nil sent)
write_all-Sent [] (b ∷ buf) sent = tt
write_all-Sent (err e ∷ writes) (b ∷ buf) sent = (b ∷ buf, (refl, λ k. ground arith))
write_all-Sent (ok zero ∷ writes) (b ∷ buf) sent = (b ∷ buf, (refl, λ k. ground arith))
write_all-Sent (ok (suc n) ∷ writes) (b ∷ buf) sent =
    subst (λ l. Sent l (write_all writes (drop n buf) (sent ++ b ∷ take n buf)))
      (next-whole n b buf sent) (write_all-Sent writes (drop n buf) (sent ++ b ∷ take n buf))

-- `write_all` sends the bytes of the buffer in order and once, whatever each write takes: if it is ok,
-- all of them; if it fails, the first of them, and some are missing.
pub write_all-whole : (writes : List (Result ℕ)) (buf : List ℕ) → Sent buf (write_all writes buf [])
write_all-whole writes buf = write_all-Sent writes buf []

-- A write that sends something.
abbrev pub Sends : Result ℕ → Type 0
Sends (ok n) = 0 < n
Sends (err e) = ⊥

abbrev pub Succeeds : Option (Result Unit × List ℕ) → Type 0
Succeeds none = ⊥
Succeeds (some (ok u, sent)) = Unit
Succeeds (some (err e, sent)) = ⊥

-- `write_all` is over, and ok, after as many writes as there are bytes, if each of them sends something.
pub write_all-Succeeds :
    (writes : List (Result ℕ)) (buf sent : List ℕ)
    → All Sends writes
    → length buf ≤ length writes
    → Succeeds (write_all writes buf sent)
unfolding write_all
write_all-Succeeds writes [] sent a l = tt
write_all-Succeeds [] (b ∷ buf) sent a l = ground arith
write_all-Succeeds (err e ∷ writes) (b ∷ buf) sent a l = elim a.0 [ ]
write_all-Succeeds (ok zero ∷ writes) (b ∷ buf) sent a l = ground (arith, a.0)
write_all-Succeeds (ok (suc n) ∷ writes) (b ∷ buf) sent a l =
    write_all-Succeeds writes (drop n buf) (sent ++ b ∷ take n buf) a.1
      (omega (arith, length-drop n buf))
