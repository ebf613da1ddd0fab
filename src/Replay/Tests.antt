-- ===== src/Replay/Tests.antt =====
-- The theorems on the replayer at a log of three actions.
use cardgames.Prelude.{
  ℕ, ◌≡◌, ◌≤◌, refl, true, false, not, some, List, [], ◌∷◌, take, arith, pos, ◌-ℤ◌,
}
use Prim.Native.String.{String}
use cardgames.Store.Table.{find, update}
use cardgames.Replay.Defs.{
  ActionEntry, PlayerSnapshot, initial, last_index, handle, go_to_index, play, derive_state,
  apply_action, note_action, ensure_player, clear_last, puts_chips, folds, replay,
}
use cardgames.Replay.Control.{IsPlaced, handle-IsPlaced}
use cardgames.Replay.Playback.{ticks, play_ends}
use cardgames.Replay.Derive.{contributed, has_folded, derive_state-players}

abbrev entry : ℕ → String → ℕ → ActionEntry
entry seat action amount = record {
  street = "preflop";
  seat = seat;
  player = "p";
  action = action;
  amount = amount;
  pot = 30;
}

abbrev log : List ActionEntry
log = entry 1 "bet" 20 ∷ entry 2 "fold" 0 ∷ entry 1 "raise" 10 ∷ []

abbrev board : List String
board = "As" ∷ "Kd" ∷ "2c" ∷ []

abbrev better : PlayerSnapshot
better = record {
  seat = 1;
  name = "p";
  last_action = some "raise";
  last_amount = 10;
  is_active = true;
  total_contributed = 30;
}

initial-IsPlaced : IsPlaced log initial
initial-IsPlaced = (omega arith, unfold ◌-ℤ◌ in omega arith)

handle_example : IsPlaced log (handle log (go_to_index (pos 9)) initial)
handle_example = handle-IsPlaced log (go_to_index (pos 9)) initial initial-IsPlaced

play_ends_example :
    (n : ℕ) × (n ≤ 4)
    × (ticks n log (handle log play initial)
        ≡ record initial { current_index = last_index log; is_playing = false })
play_ends_example = play_ends log initial initial-IsPlaced

derive_state-players_example :
    (30 ≡ contributed 1 (take 3 log)) × (true ≡ not (has_folded 1 (take 3 log)))
unfolding derive_state replay apply_action note_action ensure_player clear_last puts_chips folds
    find update
derive_state-players_example = derive_state-players log board (pos 2) 1 better refl
