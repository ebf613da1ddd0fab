-- ===== src/Purge/Tests.antt =====
-- A hand of the year 1970, and one of the day.
use cardgames.Prelude.{ℕ, ◌≡◌, some, List, [], ◌∷◌, arith}
use cardgames.Purge.Defs.{StoredHand, cutoff_date, reap_alert, reap_old_hand_history}
use cardgames.Purge.Complete.{all_stripped, heavy_count, reap_old_hand_history-ends}

abbrev old_hand : StoredHand
old_hand = record {
  id = 1;
  table_id = 7;
  end_time = 1000;
  community_cards = some ("Ah" ∷ []);
  pot = 100;
  rake = 5;
  action_log = some ("fold" ∷ []);
}

abbrev stored : List StoredHand
stored = old_hand ∷ record old_hand { id = 2; end_time = 9000000000 } ∷ []

reap_old_hand_history-ends_example :
    (n : ℕ) × (reap_old_hand_history 3 9000000000 stored
      ≡ some (
        all_stripped (cutoff_date 9000000000) stored 0 n,
        reap_alert (all_stripped (cutoff_date 9000000000) stored 0 n),
      ))
unfolding heavy_count
reap_old_hand_history-ends_example = reap_old_hand_history-ends 3 9000000000 stored (omega arith)
