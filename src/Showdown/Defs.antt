-- ===== src/Showdown/Defs.antt =====
-- The methods of HandEvaluatorService.
use cardgames.Prelude.{
  ℕ, true, false, ◌||◌, List, [], ◌∷◌, ◌++◌, map, length, take, ltb, ◌==◌, if◌then◌else◌,
}
use Prim.Native.String.{String}
use mathlib.Core.List.{foldl}
use text.Mathlib.Text.{◌==◌ as str_eq}

-- The loop of `combine`: `rest` is `arr` from `start` on. A combination that is complete is pushed,
-- a shorter one is extended by the later cards.
unfoldable pub extend {ℓ} : {A : Type ℓ} → ℕ → List A → List A → List (List A)
extend k [] combo = []
extend k (x ∷ rest) combo =
    let longer = combo ++ x ∷ [] in
    elim (length longer == k) [ true ↦ longer ∷ [] | false ↦ extend k rest longer ]
    ++ extend k rest combo

-- `combine(0, [])`
unfoldable pub combinations {ℓ} : {A : Type ℓ} → List A → ℕ → List (List A)
unfolding extend
combinations arr k = if 0 == k then [] ∷ [] else extend k arr []

-- What the code reads of the library's answer.
pub record Evaluation : Type 0 where
  pub value : ℕ
  pub hand_name : String

pub record BestHand (A : Type 0) : Type 0 where
  pub value : ℕ
  pub name : String
  pub best_cards : List A

pub record PlayerHand (A : Type 0) : Type 0 where
  pub seat : ℕ
  pub cards : List A
  pub status : String

pub record HandScore (A : Type 0) : Type 0 where
  pub seat : ℕ
  pub score : ℕ
  pub hand_description : String
  pub winning_cards : List A

module _ {A : Type 0} (eval_hand : List A → Evaluation) where
  -- The body of the loops: a strictly higher value replaces the best hand so far.
  unfoldable pub keep_best : BestHand A → List A → BestHand A
  keep_best best combo =
      let result = eval_hand combo in
      if ltb best.value result.value
      then record { value = result.value; name = result.hand_name; best_cards = combo }
      else best

  unfoldable pub evaluate_texas_hand : List A → List A → BestHand A
  unfolding combinations keep_best
  evaluate_texas_hand hole_cards community_cards =
      let full_hand = hole_cards ++ community_cards in
      foldl keep_best (record { value = 0; name = ""; best_cards = take 5 full_hand })
        (combinations full_hand 5)

  -- The inner loop over the board.
  with_board : List (List A) → BestHand A → List A → BestHand A
  unfolding keep_best
  with_board board_combos best hole_combo =
      foldl (λ b board_combo. keep_best b (hole_combo ++ board_combo)) best board_combos

  unfoldable pub evaluate_omaha_hand : List A → List A → BestHand A
  unfolding combinations with_board
  evaluate_omaha_hand hole_cards community_cards =
      foldl (with_board (combinations community_cards 3))
        (record { value = 0; name = ""; best_cards = [] }) (combinations hole_cards 2)

  -- The `filter` of the players who did not fold.
  unfoldable pub active_players : List (PlayerHand A) → List (PlayerHand A)
  active_players [] = []
  active_players (p ∷ ps) =
      if str_eq p.status "active" || str_eq p.status "all-in"
      then p ∷ active_players ps
      else active_players ps

  unfoldable pub score_of : List A → PlayerHand A → HandScore A
  unfolding evaluate_omaha_hand evaluate_texas_hand
  score_of community_cards p =
      let result =
        if ltb 2 (length p.cards)
        then evaluate_omaha_hand p.cards community_cards
        else evaluate_texas_hand p.cards community_cards in
      record {
        seat = p.seat;
        score = result.value;
        hand_description = result.name;
        winning_cards = result.best_cards;
      }

  unfoldable pub evaluate_hand_scores : List (PlayerHand A) → List A → List (HandScore A)
  unfolding active_players score_of
  evaluate_hand_scores players community_cards =
      map (score_of community_cards) (active_players players)
