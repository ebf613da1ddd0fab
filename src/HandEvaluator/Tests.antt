-- ===== src/HandEvaluator/Tests.antt =====
-- The client's evaluator at concrete hands.
use cardgames.Prelude.{◌≡◌, refl, some, List, [], ◌∷◌, ◌++◌, arith}
use cardgames.Showdown.Choose.{Selects}
use cardgames.HandEvaluator.Ranks.{EvalCard, rank_value, rank_name, rank_singular, value_to_rank}
use cardgames.HandEvaluator.Five.{evaluate5, classify, counts}
use cardgames.HandEvaluator.Defs.{evaluate_hand, pre_flop, holdem}
use cardgames.HandEvaluator.Best.{IsNamed, evaluate_hand-holdem}

abbrev ace : EvalCard
ace = record { rank = "A"; suit = "s" }

abbrev king : EvalCard
king = record { rank = "K"; suit = "h" }

abbrev queen : EvalCard
queen = record { rank = "Q"; suit = "d" }

abbrev ten : EvalCard
ten = record { rank = "10"; suit = "c" }

abbrev board : List EvalCard
board = record { rank = "A"; suit = "h" } ∷ ten ∷ queen ∷ []

-- A pair of aces.
pair_named : (evaluate5 (ace ∷ king ∷ board)).name ≡ "Pair of Aces"
unfolding evaluate5 classify counts rank_value rank_name rank_singular value_to_rank
pair_named = refl

-- The wheel is a straight to the five.
wheel_named :
    (evaluate5 (
      ace
      ∷ record { rank = "2"; suit = "h" }
      ∷ record { rank = "3"; suit = "h" }
      ∷ record { rank = "4"; suit = "h" }
      ∷ record { rank = "5"; suit = "h" }
      ∷ [])).name
    ≡ "Straight, Five High"
unfolding evaluate5 classify counts rank_value rank_name rank_singular value_to_rank
wheel_named = refl

pre_flop_named : evaluate_hand (ace ∷ king ∷ []) [] holdem ≡ some "High Card, Ace"
unfolding evaluate_hand pre_flop rank_value rank_singular
pre_flop_named = refl

evaluate_hand-holdem_example :
    IsNamed (Selects 5 ((ace ∷ king ∷ []) ++ board)) (evaluate_hand (ace ∷ king ∷ []) board holdem)
evaluate_hand-holdem_example =
    evaluate_hand-holdem ace king [] (record { rank = "A"; suit = "h" }) (ten ∷ queen ∷ [])
      (omega arith)
