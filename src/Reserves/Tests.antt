-- ===== src/Reserves/Tests.antt =====
-- An audit of two wallets, a table and a ledger.
use cardgames.Prelude.{
  refl, ◌≡◌, ◌≢◌, false, true, ℕ, none, some, [], ◌∷◌, arith, pos, ◌+ℤ◌, ◌-ℤ◌, neg, abs, zero, suc,
}
use cardgames.Store.{
  Store, Transaction, commit, deposit, buy_in, completed, deposit_via, buy_in_for, session,
  find_wallet_of,
}
use cardgames.Store.Table.{find}
use cardgames.Wallet.Ledger.{IsSound, ledger_total}
use cardgames.Wallet.Requests.{create_withdrawal_request, lock_funds}
use cardgames.Reserves.Total.{total}
use cardgames.Reserves.Defs.{
  UserType, player, house, TableChips, sum_chips_from_redis, report_of, run_audit, drift,
  maintenance, drift_alert, calculate_player_wallets,
}
use cardgames.Reserves.Gap.{OwnsRows, row_gap, report_of-gap}
use cardgames.Reserves.Drift.{run_audit-create_withdrawal_request, report_of-lock_funds}

abbrev kinds : ℕ → UserType
kinds zero = house
kinds (suc n) = player

kinds-ne-bot : (u : ℕ) → kinds u ≢ UserType.bot
kinds-ne-bot zero = cc
kinds-ne-bot (suc n) = cc

abbrev paid_in : Transaction
paid_in = record {
  id = 1;
  wallet_id = 5;
  type = deposit;
  amount = pos 10000;
  status = completed;
  description = deposit_via "Standard";
  balance_before = some (pos 0);
  balance_after = some (pos 0);
  reference_id = none;
  rejection_reason = none;
  processed_by_id = none;
  performed_by_id = none;
}

abbrev sat_down : Transaction
sat_down = record paid_in {
  id = 2;
  type = buy_in;
  amount = neg (pos 4000);
  description = buy_in_for "Main";
  reference_id = some (session 7 1000);
}

abbrev vault : Store
vault = record {
  wallets =
      record { id = 5; user_id = 3; real_balance = pos 6000; bonus_balance = pos 0 }
      ∷ record { id = 6; user_id = 0; real_balance = pos 0; bonus_balance = pos 0 }
      ∷ [];
  transactions = sat_down ∷ paid_in ∷ [];
  audits = [];
  tables = [];
  redis_up = true;
  alerts = [];
}

abbrev main_table : TableChips
main_table = record {
  pot = 0;
  players = none ∷ some (record { chips = 3500; current_bet = 500 }) ∷ [];
}

abbrev busier_table : TableChips
busier_table = record { pot = 1000; players = main_table.players }

vault-IsSound : IsSound vault
unfolding find ledger_total ◌+ℤ◌ neg
vault-IsSound = record {
  unique_wallets = (refl, (refl, tt));
  unique_rows = (refl, (refl, tt));
  balanced = (refl, (refl, tt));
}

vault-OwnsRows : OwnsRows vault
unfolding find
vault-OwnsRows = ((_, refl), ((_, refl), tt))

vault-balanced : (report_of kinds (main_table ∷ []) vault).system_discrepancy ≡ pos 0
unfolding report_of total sum_chips_from_redis ◌+ℤ◌ ◌-ℤ◌ neg abs
vault-balanced = refl

report_of-gap_example :
    (report_of kinds (main_table ∷ []) vault).system_discrepancy
    ≡ pos (sum_chips_from_redis (main_table ∷ [])).0
      +ℤ (calculate_player_wallets kinds vault.wallets).bonus
      +ℤ total row_gap vault.transactions
report_of-gap_example =
    report_of-gap kinds (main_table ∷ []) vault vault-IsSound vault-OwnsRows kinds-ne-bot

run_audit-create_withdrawal_request_example :
    let s' = commit vault (create_withdrawal_request 3 (pos 2500) none none 9 vault) in
    let run = run_audit true false kinds (main_table ∷ []) s' in
    (run.report.system_discrepancy ≡ neg (pos 2500))
    × (run.report.status ≡ drift)
    × (run.published ≡ maintenance (neg (pos 2500)) ∷ drift_alert (neg (pos 2500)) ∷ [])
unfolding find_wallet_of find
run_audit-create_withdrawal_request_example =
    run_audit-create_withdrawal_request kinds (main_table ∷ []) false 3 (pos 2500) none none 9 vault
      _ vault-IsSound refl refl (omega arith) (omega arith) refl vault-balanced

report_of-lock_funds_example :
    (report_of kinds
      (busier_table ∷ [])
      (commit vault (lock_funds 3 (pos 1000) 7 "7" 2000 9 vault))).system_discrepancy
    ≡ (report_of kinds (main_table ∷ []) vault).system_discrepancy
unfolding find_wallet_of find sum_chips_from_redis ◌+ℤ◌
report_of-lock_funds_example =
    report_of-lock_funds kinds (main_table ∷ []) (busier_table ∷ []) 3 (pos 1000) 7 "7" 2000 9 vault
      _ vault-IsSound refl refl (omega arith) (refl, refl) refl
