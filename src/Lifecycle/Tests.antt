-- ===== src/Lifecycle/Tests.antt =====
-- The theorems on the lifecycle job at a hall with one tournament.
use cardgames.Prelude.{◌+◌, ◌≤◌, ◌≡◌, refl, true, false, none, some, [], ◌∷◌, arith, pos}
use cardgames.Tournament.Defs.{Tournament, Hall, registering, late_reg, running, find_tournament}
use cardgames.Store.Table.{find}
use cardgames.Lifecycle.Defs.{
  get_late_registration_window_ms, process_lifecycle_transitions, process_tick,
}
use cardgames.Lifecycle.Due.{process_lifecycle_transitions-due}
use cardgames.Lifecycle.Runs.{process_lifecycle_transitions_begins}

abbrev sunday : Tournament
sunday = record {
  id = 3;
  created_at = 1;
  created_by_id = 5;
  config = record {
    name = "Sunday";
    text = none;
    password = none;
    game_type = "TEXAS_HOLDEM";
    entry_format = "REGULAR";
    buy_in = 90;
    fee = 10;
    guaranteed_prize_pool = 100;
    bounty_amount = none;
    starting_chips = 1000;
    blind_structure = "REGULAR";
    seat_cap = some 9;
    min_players_to_start = 2;
    payout_structure = "TOP_15_PERCENT";
    start_time = 9000000;
    late_registration = "THIRTY_MINUTES";
    auto_start = true;
    rebuy_enabled = false;
    rebuy_cost = none;
    rebuy_chips = none;
    addon_enabled = false;
    addon_cost = none;
    addon_chips = none;
    max_re_entries = none;
    re_entry_window = none;
  };
  status = registering;
  current_blind_level = 0;
  tables_active = 0;
  total_entries = pos 1;
  players_remaining = pos 1;
  actual_prize_pool = pos 100;
  finished_at = none;
}

abbrev club : Hall
club = record {
  store = record {
    wallets = [];
    transactions = [];
    audits = [];
    tables = [];
    redis_up = true;
    alerts = [];
  };
  tournaments = sunday ∷ [];
  entries = [];
  changes = [];
}

known : find_tournament 3 club ≡ some sunday
unfolding find_tournament find
known = refl

window_over :
    sunday.config.start_time + get_late_registration_window_ms sunday.config.late_registration
    ≤ 10800000
unfolding get_late_registration_window_ms
window_over = omega arith

-- Another job does nothing.
other_job : process_tick "other" 9000000 club ≡ club
unfolding process_tick
other_job = refl

process_lifecycle_transitions-due_example :
    find_tournament 3 (process_lifecycle_transitions 9000000 club)
    ≡ some (record sunday { status = late_reg })
unfolding find get_late_registration_window_ms
process_lifecycle_transitions-due_example =
    process_lifecycle_transitions-due 9000000 club 3 sunday (refl, tt) known

process_lifecycle_transitions_begins_example :
    find_tournament 3 (process_lifecycle_transitions 10800000 club)
    ≡ some (record sunday { status = running })
unfolding find
process_lifecycle_transitions_begins_example =
    process_lifecycle_transitions_begins 10800000 club 3 sunday (refl, tt) known (omega arith)
      window_over
