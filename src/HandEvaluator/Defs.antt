-- ===== src/HandEvaluator/Defs.antt =====
-- `combinations`, `findBest` and `evaluateHand`.
use cardgames.Prelude.{
  ℕ, zero, suc, Bool, ◌&&◌, ◌||◌, Option, none, some, List, [], ◌∷◌, ◌++◌, map, length, negsuc, ltb,
  leb, ltb_ℤ, ◌==◌, if◌then◌else◌,
}
use Prim.Native.String.{String}
use mathlib.Core.List.{foldl, flat_map}
use cardgames.HandEvaluator.Ranks.{EvalCard, rank_value, pair_of, high_card, value_to_rank}
use cardgames.HandEvaluator.Five.{HandResult, Count, evaluate5, sort_desc, tally, head_or_zero}

unfoldable pub combinations {ℓ} : {A : Type ℓ} → List A → ℕ → List (List A)
combinations arr zero = [] ∷ []
combinations [] (suc k) = []
combinations (first ∷ rest) (suc k) =
    let without = combinations rest (suc k) in
    let with_first = map (◌∷◌ first) (combinations rest k) in
    if ltb (suc (length rest)) (suc k) then [] else with_first ++ without

-- The test of the loop of `findBest`.
abbrev pub beats : HandResult → HandResult → Bool
beats result best =
    ltb best.rank result.rank || (result.rank == best.rank && ltb_ℤ best.score result.score)

abbrev pub no_best : HandResult
no_best = record { rank = 0; score = negsuc 0; name = "" }

unfoldable pub find_best : List (List EvalCard) → HandResult
find_best combos =
    foldl (λ best combo. let result = evaluate5 combo in if beats result best then result else best)
      no_best combos

-- `best.name || null`
abbrev pub name_or_null : String → Option String
name_or_null String.[] = none
name_or_null name = some name

pub data GameType : Type 0 where
  holdem omaha : GameType

-- Two hole cards and no board.
unfoldable pub pre_flop : EvalCard → EvalCard → String
pre_flop c0 c1 =
    let v0 = rank_value c0.rank in
    let v1 = rank_value c1.rank in
    let high_rank = if ltb v1 v0 then c0.rank else c1.rank in
    if v0 == v1 then pair_of c0.rank else high_card high_rank

-- The values of which there are two cards, the highest first.
abbrev pub pairs_of : List Count → List ℕ
pairs_of [] = []
pairs_of (c ∷ cs) = let rest = pairs_of cs in if leb 2 c.count then c.val ∷ rest else rest

-- Fewer than five cards, of which no combination has five.
unfoldable pub describe_few : List EvalCard → String
describe_few cards =
    let values = sort_desc (map (λ c. rank_value c.rank) cards) in
    elim (sort_desc (pairs_of (foldl (λ f v. tally v f) [] values))) [
      | [] ↦ high_card (value_to_rank (head_or_zero values))
      | v ∷ vs ↦ pair_of (value_to_rank v)
    ]

unfoldable pub evaluate_omaha : List EvalCard → List EvalCard → Option String
evaluate_omaha hole board =
    if ltb (length board) 3
    then none
    else name_or_null
        (find_best
          (flat_map (λ h. map (λ b. h ++ b) (combinations board 3)) (combinations hole 2))).name

unfoldable pub evaluate_holdem : List EvalCard → List EvalCard → Option String
evaluate_holdem hole board =
    let cards = hole ++ board in
    if ltb (length cards) 5
    then some (describe_few cards)
    else name_or_null (find_best (combinations cards 5)).name

unfoldable pub evaluate_hand : List EvalCard → List EvalCard → GameType → Option String
evaluate_hand [] board game = none
evaluate_hand (c ∷ []) board game = none
evaluate_hand (c0 ∷ c1 ∷ cs) [] game = some (pre_flop c0 c1)
evaluate_hand (c0 ∷ c1 ∷ cs) (b ∷ bs) omaha = evaluate_omaha (c0 ∷ c1 ∷ cs) (b ∷ bs)
evaluate_hand (c0 ∷ c1 ∷ cs) (b ∷ bs) holdem = evaluate_holdem (c0 ∷ c1 ∷ cs) (b ∷ bs)
