-- ===== src/Hands/Tests.antt =====
-- A hand of two players that the first wins.
use cardgames.Prelude.{ℕ, ◌≡◌, true, Option, none, some, List, [], ◌∷◌, pos, neg}
use cardgames.Archive.Defs.{HandHistory, HandPlayerResult, Archive}
use cardgames.Hands.Defs.{TableRow, get_hand_history, get_my_hand_history}
use cardgames.Hands.Privacy.{hide_cards, lists-hide_cards}

abbrev flush_hand : HandHistory
flush_hand = record {
  id = 77;
  table_id = 7;
  end_time = 1000;
  community_cards = "Ah" ∷ "Kh" ∷ "9h" ∷ "2c" ∷ "2d" ∷ [];
  pot = 100;
  rake = 5;
  action_log = [];
}

abbrev won_by : HandPlayerResult
won_by = record {
  hand_id = 77;
  user_id = 2;
  seat = 1;
  win_amount = 95;
  net_profit = pos 45;
  hand_description = some "Flush";
  cards = "3h" ∷ "4h" ∷ [];
}

abbrev lost_by : HandPlayerResult
lost_by = record won_by {
  user_id = 3;
  seat = 2;
  win_amount = 0;
  net_profit = neg (pos 50);
  hand_description = none;
  cards = "Qs" ∷ "Qd" ∷ [];
}

abbrev played : Archive
played = record {
  house = record {
    store = record {
      wallets = [];
      transactions = [];
      audits = [];
      tables = [];
      redis_up = true;
      alerts = [];
    };
    users = [];
  };
  hands = flush_hand ∷ [];
  results = won_by ∷ lost_by ∷ [];
  audits = [];
}

abbrev as_stored : List HandHistory → List HandPlayerResult → List HandPlayerResult
as_stored hands results = results

abbrev no_tables : ℕ → Option TableRow
no_tables id = none

lists-hide_cards_example :
    (get_hand_history (λ hs. hs) 7 3 (hide_cards 3 played) ≡ get_hand_history (λ hs. hs) 7 3 played)
    × (get_my_hand_history as_stored no_tables 3 1 20 (hide_cards 3 played)
        ≡ get_my_hand_history as_stored no_tables 3 1 20 played)
lists-hide_cards_example = lists-hide_cards 3 (λ hs. hs) as_stored no_tables 7 1 20 played
