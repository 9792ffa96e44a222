-- ===== src/Stream/Tests.antt =====
-- The combinators of rust_async/stream.rs on a short stream.
use rust_base.Base.{ℕ, ◌+◌, ◌≡◌, refl, Bool, none, some, List, [], ◌∷◌, ltb, if◌then◌else◌}
use rust_base.Sync.{ready, pending}
use rust_base.Stream.{
  Source, once_poll, map_poll, for_each_poll, fold_poll, fold_loop, for_each_loop,
}
use rust_base.Stream.Items.{items, waits, total, fold_again, fold_poll-total}

abbrev three : Source ℕ
three = ready (some 4) ∷ pending ∷ ready (some 1) ∷ ready (some 6) ∷ ready none ∷ []

abbrev two : List ℕ
two = 7 ∷ 8 ∷ []

abbrev large : ℕ → Bool
large a = ltb 2 a

fold_poll-total_example :
    fold_again (λ b a. b + a) 1 (fold_poll (λ b a. b + a) (record { stream = three; acc = some 0 }))
    ≡ some (if ltb 1 (waits three) then pending else ready (total (λ b a. b + a) 0 (items three)))
fold_poll-total_example = fold_poll-total (λ b a. b + a) 1 0 three refl

map_poll_test : (map_poll (λ a. a + 1) three).0 ≡ ready (some 5)
unfolding map_poll
map_poll_test = refl

fold_polled_again : fold_poll (λ b a. b + a) (record { stream = three; acc = none }) ≡ none
unfolding fold_poll fold_loop
fold_polled_again = refl

for_each_test : (for_each_poll (record { stream = three; calls = [] })).1.calls ≡ 4 ∷ []
unfolding for_each_poll for_each_loop
for_each_test = refl

once_test : (once_poll (once_poll (some two)).1).0 ≡ ready none
unfolding once_poll
once_test = refl
