-- ===== src/Showdown/Tests.antt =====
-- The theorems on the showdown at hands of numbers, with the sum as their value.
use cardgames.Prelude.{ℕ, ◌≡◌, ◌≤◌, ◌+◌, List, [], ◌∷◌, ◌++◌}
use cardgames.Showdown.Defs.{
  Evaluation, PlayerHand, combinations, evaluate_texas_hand, evaluate_omaha_hand,
}
use cardgames.Showdown.Choose.{Selects, IsOmahaHand, choose, combinations-choose}
use cardgames.Showdown.Best.{IsAttained, evaluate_texas_hand-best, evaluate_omaha_hand-best}

abbrev sum : List ℕ → ℕ
sum [] = 0
sum (x ∷ xs) = x + sum xs

abbrev eval_sum : List ℕ → Evaluation
eval_sum c = record { value = sum c; hand_name = "sum" }

abbrev hole : List ℕ
hole = 14 ∷ 9 ∷ []

abbrev hole_four : List ℕ
hole_four = 14 ∷ 9 ∷ 3 ∷ 2 ∷ []

abbrev flop : List ℕ
flop = 5 ∷ 6 ∷ 7 ∷ []

abbrev seated : PlayerHand ℕ
seated = record { seat = 4; cards = hole; status = "active" }

abbrev folded : PlayerHand ℕ
folded = record { seat = 5; cards = hole_four; status = "folded" }

combinations_example : combinations flop 2 ≡ choose 2 flop
combinations_example = combinations-choose flop 2

evaluate_texas_hand_example :
    ((c : List ℕ)
      → Selects 5 (hole ++ flop) c
      → sum c ≤ (evaluate_texas_hand eval_sum hole flop).value)
    × IsAttained eval_sum (Selects 5 (hole ++ flop)) (evaluate_texas_hand eval_sum hole flop)
evaluate_texas_hand_example = evaluate_texas_hand-best eval_sum hole flop

evaluate_omaha_hand_example :
    ((c : List ℕ)
      → IsOmahaHand hole_four flop c
      → sum c ≤ (evaluate_omaha_hand eval_sum hole_four flop).value)
    × IsAttained eval_sum (IsOmahaHand hole_four flop) (evaluate_omaha_hand eval_sum hole_four flop)
evaluate_omaha_hand_example = evaluate_omaha_hand-best eval_sum hole_four flop
