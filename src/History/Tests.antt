-- ===== src/History/Tests.antt =====
-- A sequence of calls at a hall with one wallet and one tournament.
use cardgames.Prelude.{refl, true, false, none, some, [], ◌∷◌, pos, ◌+ℤ◌}
use cardgames.Store.{Wallet, Store, deposit, TransactionStatus, deposit_via, session}
use cardgames.Store.Table.{find}
use cardgames.Wallet.Ledger.{IsSound, ledger_total}
use cardgames.Tournament.Defs.{Tournament, Hall, registering}
use cardgames.Tournament.Tally.{count_entries}
use cardgames.History.Defs.{perform, lock, settle, enter, tick, Reaches, here, next}
use cardgames.History.Orderly.{IsOrderly, Reaches-IsOrderly}

abbrev anna : Wallet
anna = record { id = 1; user_id = 10; real_balance = pos 500; bonus_balance = pos 0 }

abbrev cashier : Store
cashier = record {
  wallets = anna ∷ [];
  transactions =
      record {
        id = 100;
        wallet_id = 1;
        type = deposit;
        amount = pos 500;
        status = TransactionStatus.completed;
        description = deposit_via "Agent";
        balance_before = none;
        balance_after = none;
        reference_id = none;
        rejection_reason = none;
        processed_by_id = none;
        performed_by_id = none;
      }
      ∷ [];
  audits = [];
  tables = [];
  redis_up = true;
  alerts = [];
}

abbrev sunday : Tournament
sunday = record {
  id = 3;
  created_at = 1;
  created_by_id = 5;
  config = record {
    name = "Sunday";
    text = none;
    password = none;
    game_type = "TEXAS_HOLDEM";
    entry_format = "REGULAR";
    buy_in = 90;
    fee = 10;
    guaranteed_prize_pool = 100;
    bounty_amount = none;
    starting_chips = 1000;
    blind_structure = "REGULAR";
    seat_cap = some 9;
    min_players_to_start = 2;
    payout_structure = "TOP_15_PERCENT";
    start_time = 99;
    late_registration = "SIXTY_MINUTES";
    auto_start = true;
    rebuy_enabled = false;
    rebuy_cost = none;
    rebuy_chips = none;
    addon_enabled = false;
    addon_cost = none;
    addon_chips = none;
    max_re_entries = none;
    re_entry_window = none;
  };
  status = registering;
  current_blind_level = 0;
  tables_active = 0;
  total_entries = pos 0;
  players_remaining = pos 0;
  actual_prize_pool = pos 100;
  finished_at = none;
}

abbrev club : Hall
club = record { store = cashier; tournaments = sunday ∷ []; entries = []; changes = [] }

cashier-IsSound : IsSound cashier
unfolding find ledger_total ◌+ℤ◌
cashier-IsSound = record {
  unique_wallets = (refl, tt);
  unique_rows = (refl, tt);
  balanced = (refl, tt);
}

club-IsOrderly : IsOrderly club
unfolding find count_entries
club-IsOrderly = record {
  books = cashier-IsSound;
  counters = record { unique_tournaments = (refl, tt); unique_entries = tt; counted = (refl, tt) };
}

abbrev entered : Hall
entered = perform (enter 10 3 7 41 101) club

abbrev seated : Hall
seated = perform (lock 10 (pos 50) 7 "t7" 8 102) entered

abbrev evening : Hall
evening =
    perform (tick "tournament-lifecycle-tick" 10)
      (perform (settle 10 (pos 80) 7 "t7" (some (session 7 8)) 103) seated)

evening_reached : Reaches club evening
evening_reached =
    next
      (next (next (next here (enter 10 3 7 41 101) tt) (lock 10 (pos 50) 7 "t7" 8 102) tt)
        (settle 10 (pos 80) 7 "t7" (some (session 7 8)) 103) tt)
      (tick "tournament-lifecycle-tick" 10) tt

Reaches-IsOrderly_example : IsOrderly evening
Reaches-IsOrderly_example = Reaches-IsOrderly club-IsOrderly evening_reached
