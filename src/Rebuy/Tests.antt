-- ===== src/Rebuy/Tests.antt =====
-- A rebuy at a table that refuses the chips.
use cardgames.Prelude.{ℕ, refl, ◌≡◌, true, none, some, [], ◌∷◌, arith, ℤ, pos, ◌+ℤ◌, neg}
use cardgames.Store.{
  Store, Wallet, Transaction, buy_in, deposit, completed, buy_in_for, session, find_wallet,
  find_wallet_of,
}
use cardgames.Store.Table.{find}
use cardgames.Wallet.Ledger.{IsSound, ledger_total}
use cardgames.Rebuy.Defs.{Reply, rejected, rebuy}
use cardgames.Rebuy.Paid.{balance_by, rebuy-wallet}

abbrev sat_down : Transaction
sat_down = record {
  id = 2;
  wallet_id = 5;
  type = buy_in;
  amount = neg (pos 4000);
  status = completed;
  description = buy_in_for "Main";
  balance_before = some (pos 10000);
  balance_after = some (pos 6000);
  reference_id = some (session 7 1000);
  rejection_reason = none;
  processed_by_id = none;
  performed_by_id = none;
}

abbrev purse : Wallet
purse = record { id = 5; user_id = 3; real_balance = pos 6000; bonus_balance = pos 0 }

abbrev bank : Store
bank = record {
  wallets = purse ∷ [];
  transactions =
      sat_down
      ∷ record sat_down { id = 1; type = deposit; amount = pos 10000; reference_id = none }
      ∷ [];
  audits = [];
  tables = [];
  redis_up = true;
  alerts = [];
}

bank-IsSound : IsSound bank
unfolding find ledger_total ◌+ℤ◌ neg
bank-IsSound = record {
  unique_wallets = (refl, tt);
  unique_rows = (refl, (refl, tt));
  balanced = (refl, tt);
}

abbrev refusing : ℕ → ℕ → ℤ → ℕ → Reply × ℕ
refusing table seat amount calls = (rejected, calls)

rebuy-wallet_example :
    find_wallet 5 (rebuy refusing (some 2) 3 7 "7" (pos 500) 2000 9 10 bank 0).store
    ≡ some (record purse { real_balance = balance_by rejected (pos 6000) (pos 500) })
unfolding find_wallet_of find
rebuy-wallet_example =
    rebuy-wallet refusing 2 3 7 "7" (pos 500) 2000 9 10 bank 0 purse bank-IsSound refl (omega arith)
      (refl, refl) (refl, refl) (omega arith) (omega arith)
