-- ===== src/Tournament/Tests.antt =====
-- The theorems on TournamentService at concrete halls.
use cardgames.Prelude.{◌≡◌, refl, inl, inr, arith, true, false, none, some, [], ◌∷◌, pos, ◌+ℤ◌}
use cardgames.Store.{
  find_wallet_of, Wallet, Store, deposit, TransactionStatus, deposit_via, Error, err,
}
use cardgames.Store.Outcome.{Returns}
use cardgames.Store.Table.{find}
use cardgames.Tournament.Accepts.{MayEnter, IsRegistered, register_player-Returns}
use cardgames.Wallet.Ledger.{IsSound, ledger_total}
use cardgames.Tournament.Defs.{
  Tournament, TournamentEntry, Hall, registering, find_tournament, find_entry,
}
use cardgames.Tournament.Register.{register_player}
use cardgames.Tournament.Tally.{IsTallied, count_entries}
use cardgames.Tournament.Once.{register_player-once}

abbrev anna : Wallet
anna = record { id = 1; user_id = 10; real_balance = pos 500; bonus_balance = pos 0 }

abbrev cashier : Store
cashier = record {
  wallets = anna ∷ [];
  transactions =
      record {
        id = 100;
        wallet_id = 1;
        type = deposit;
        amount = pos 500;
        status = TransactionStatus.completed;
        description = deposit_via "Agent";
        balance_before = none;
        balance_after = none;
        reference_id = none;
        rejection_reason = none;
        processed_by_id = none;
        performed_by_id = none;
      }
      ∷ [];
  audits = [];
  tables = [];
  redis_up = true;
  alerts = [];
}

abbrev sunday : Tournament
sunday = record {
  id = 3;
  created_at = 1;
  created_by_id = 5;
  config = record {
    name = "Sunday";
    text = none;
    password = none;
    game_type = "TEXAS_HOLDEM";
    entry_format = "REGULAR";
    buy_in = 90;
    fee = 10;
    guaranteed_prize_pool = 100;
    bounty_amount = none;
    starting_chips = 1000;
    blind_structure = "REGULAR";
    seat_cap = some 9;
    min_players_to_start = 2;
    payout_structure = "TOP_15_PERCENT";
    start_time = 99;
    late_registration = "SIXTY_MINUTES";
    auto_start = true;
    rebuy_enabled = false;
    rebuy_cost = none;
    rebuy_chips = none;
    addon_enabled = false;
    addon_cost = none;
    addon_chips = none;
    max_re_entries = none;
    re_entry_window = none;
  };
  status = registering;
  current_blind_level = 0;
  tables_active = 0;
  total_entries = pos 1;
  players_remaining = pos 1;
  actual_prize_pool = pos 100;
  finished_at = none;
}

-- Another user's entry.
abbrev cleo_entry : TournamentEntry
cleo_entry = record {
  id = 40;
  created_at = 2;
  tournament_id = 3;
  user_id = 30;
  is_active = false;
  rebuys_used = 0;
  addons_used = 0;
  re_entries_used = 0;
  finish_position = none;
  prize_won = none;
}

abbrev club : Hall
club = record {
  store = cashier;
  tournaments = sunday ∷ [];
  entries = cleo_entry ∷ [];
  changes = [];
}

cashier-IsSound : IsSound cashier
unfolding find ledger_total ◌+ℤ◌
cashier-IsSound = record {
  unique_wallets = (refl, tt);
  unique_rows = (refl, tt);
  balanced = (refl, tt);
}

club-IsTallied : IsTallied club
unfolding find count_entries
club-IsTallied = record {
  unique_tournaments = (refl, tt);
  unique_entries = (refl, tt);
  counted = (refl, tt);
}

register_player-once_example : (e : Error) × (register_player 30 3 7 41 101 club ≡ err e)
unfolding find_entry find
register_player-once_example = register_player-once 30 3 7 41 101 club cleo_entry refl

anna-MayEnter : MayEnter 10 3 club anna sunday
unfolding find_wallet_of find_tournament find_entry find
anna-MayEnter = record {
  own = refl;
  found = refl;
  opened = inl refl;
  room = inr (9, refl, inr (omega arith));
  absent = refl;
  enough = omega arith;
}

register_player-Returns_example :
    Returns (IsRegistered 10 3 anna sunday) (register_player 10 3 7 41 101 club)
unfolding find
register_player-Returns_example =
    register_player-Returns 10 3 7 41 101 club anna sunday cashier-IsSound anna-MayEnter refl
      (refl, refl)
