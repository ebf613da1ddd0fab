-- ===== src/Wallet/Tests.antt =====
-- The theorems on WalletService at concrete stores.
use cardgames.Prelude.{ℕ, ◌≡◌, refl, subst, true, none, some, [], ◌∷◌, arith, ℤ, pos, ◌+ℤ◌, ◌-ℤ◌}
use cardgames.Store.{
  Store, Wallet, Transaction, TransactionType, TransactionStatus, deposit, cash_out, completed,
  pending, rejected, deposit_via, commit, find_wallet, find_wallet_of, find_transaction, session,
  err, not_pending,
}
use cardgames.Store.Table.{find}
use cardgames.Wallet.Ledger.{IsSound, ledger_total}
use cardgames.Wallet.Requests.{create_withdrawal_request, lock_funds}
use cardgames.Wallet.Admin.{admin_process_transaction}
use cardgames.Wallet.CashOut.{settle_cash_out}
use cardgames.Wallet.Process.{Settles, decided_once}
use cardgames.Wallet.Refund.{withdraw_then_reject}
use cardgames.Wallet.Session.{settle_cash_out-once}
use cardgames.Wallet.RoundTrip.{buy_in-cash_out}

abbrev anna : Wallet
anna = record { id = 1; user_id = 10; real_balance = pos 500; bonus_balance = pos 0 }

abbrev ben : Wallet
ben = record { id = 2; user_id = 20; real_balance = pos 0; bonus_balance = pos 0 }

abbrev row : ℕ → TransactionType → ℤ → TransactionStatus → Transaction
row id type amount status = record {
  id = id;
  wallet_id = 1;
  type = type;
  amount = amount;
  status = status;
  description = deposit_via "Agent";
  balance_before = none;
  balance_after = none;
  reference_id = none;
  rejection_reason = none;
  processed_by_id = none;
  performed_by_id = none;
}

-- A deposit that is done and one that waits.
abbrev shop : Store
shop = record {
  wallets = anna ∷ ben ∷ [];
  transactions = row 101 deposit (pos 70) pending ∷ row 100 deposit (pos 500) completed ∷ [];
  audits = [];
  tables = record { id = 7; name = "Main" } ∷ [];
  redis_up = true;
  alerts = [];
}

shop-IsSound : IsSound shop
unfolding find ledger_total ◌+ℤ◌
shop-IsSound = record {
  unique_wallets = (refl, (refl, tt));
  unique_rows = (refl, (refl, tt));
  balanced = (refl, (refl, tt));
}

-- The cash-out of a session, in the ledger.
abbrev left_row : Transaction
left_row = record (row 102 cash_out (pos 30) completed) { reference_id = some (session 7 1000) }

some_type : (t u : Transaction) → some t ≡ some u → t.type ≡ u.type
some_type t u e = ground arith

waiting-Settles :
    (t : Transaction) → find_transaction 101 shop ≡ some t → Settles t.type completed none
unfolding find_transaction find
waiting-Settles t e = subst (λ k. Settles k completed none) (some_type _ t e) tt

decided_once_example :
    admin_process_transaction 101 completed none none
      (some 5)
      (commit shop (admin_process_transaction 101 rejected none (some "no") (some 5) shop))
    ≡ err not_pending
unfolding find_transaction find_wallet find
decided_once_example =
    decided_once 101 rejected none (some "no") (some 5) shop (row 101 deposit (pos 70) pending) anna
      completed none none (some 5) refl refl refl refl refl

withdraw_then_reject_example :
    let asked = commit shop (create_withdrawal_request 10 (pos 50) none none 103 shop) in
    let rejected_at = admin_process_transaction 103 rejected none none (some 5) asked in
    find_wallet 1 (commit asked rejected_at)
    ≡ some (record anna { real_balance = pos 500 -ℤ pos 50 -ℤ pos 50 })
unfolding find_wallet_of find
withdraw_then_reject_example =
    withdraw_then_reject 10 (pos 50) none none 103 shop anna none none (some 5) shop-IsSound refl
      (omega arith) refl

settle_cash_out-once_example :
    let settled = settle_cash_out 10 (pos 80) 7 "t7" (some (session 7 1000)) 103 shop in
    settle_cash_out 10 (pos 60) 7 "t7" (some (session 7 1000)) 104 settled ≡ settled
unfolding find_wallet_of find
settle_cash_out-once_example =
    settle_cash_out-once 10 (pos 80) 7 "t7" (session 7 1000) 103 shop anna 10 (pos 60) 7 "t7" 104
      shop-IsSound refl (omega arith) (refl, refl)

buy_in-cash_out_example :
    let sat = commit shop (lock_funds 10 (pos 200) 7 "t7" 1000 103 shop) in
    find_wallet 1 (settle_cash_out 10 (pos 260) 7 "t7" (some (session 7 1000)) 104 sat)
    ≡ some (record anna { real_balance = pos 500 -ℤ pos 200 +ℤ pos 260 })
unfolding find_wallet_of find
buy_in-cash_out_example =
    buy_in-cash_out 10 (pos 200) 7 "t7" 1000 103 shop anna shop-IsSound refl (omega arith)
      (refl, refl) (pos 260) 104 (omega arith) (omega arith) (refl, refl)
