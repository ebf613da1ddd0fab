-- ===== src/Healer/Tests.antt =====
-- A sweep of a buy-in whose player has left.
use cardgames.Prelude.{ℕ, refl, ◌≡◌, true, none, some, [], ◌∷◌, arith, pos, ◌+ℤ◌, neg, abs, ◌*◌}
use mathlib.Core.List.{Memᴰ}
use cardgames.Store.{
  Store, Wallet, Transaction, commit, buy_in, deposit, completed, buy_in_for, session, find_wallet,
  find_wallet_of,
}
use cardgames.Store.Table.{find}
use cardgames.Wallet.Ledger.{IsSound, ledger_total}
use cardgames.Wallet.CashOut.{settle_cash_out}
use cardgames.Healer.Defs.{
  orphan_of, find_orphaned_transactions, refund_orphan, auto_resolve_ghost_money,
}
use cardgames.Healer.Refunded.{auto_resolve_ghost_money-IsSound, auto_resolve_ghost_money-none}
use cardgames.Healer.Unshielded.{refund_orphan-settle_cash_out}

abbrev ghost : Transaction
ghost = record {
  id = 2;
  wallet_id = 5;
  type = buy_in;
  amount = neg (pos 4000);
  status = completed;
  description = buy_in_for "Main";
  balance_before = some (pos 10000);
  balance_after = some (pos 6000);
  reference_id = some (session 7 1000);
  rejection_reason = none;
  processed_by_id = none;
  performed_by_id = none;
}

abbrev purse : Wallet
purse = record { id = 5; user_id = 3; real_balance = pos 6000; bonus_balance = pos 0 }

abbrev bank : Store
bank = record {
  wallets = purse ∷ [];
  transactions =
      ghost ∷ record ghost { id = 1; type = deposit; amount = pos 10000; reference_id = none } ∷ [];
  audits = [];
  tables = [];
  redis_up = true;
  alerts = [];
}

bank-IsSound : IsSound bank
unfolding find ledger_total ◌+ℤ◌ neg
bank-IsSound = record {
  unique_wallets = (refl, tt);
  unique_rows = (refl, (refl, tt));
  balanced = (refl, tt);
}

auto_resolve_ghost_money-IsSound_example :
    IsSound (auto_resolve_ghost_money (some 1) (λ i. i) [] (10 * 60 * 60 * 1000) 9 bank).0.store
auto_resolve_ghost_money-IsSound_example =
    auto_resolve_ghost_money-IsSound (some 1) (λ i. i) [] (10 * 60 * 60 * 1000) 9 bank bank-IsSound

auto_resolve_ghost_money-none_example :
    let swept = auto_resolve_ghost_money none (λ i. i) [] (10 * 60 * 60 * 1000) 9 bank in
    (swept.0.store ≡ bank) × (swept.0.refunded_count ≡ 0) × (swept.1 ≡ none)
auto_resolve_ghost_money-none_example =
    auto_resolve_ghost_money-none (λ i. i) [] (10 * 60 * 60 * 1000) 9 bank

abbrev ten_hours : ℕ
ten_hours = 10 * 60 * 60 * 1000

refund_orphan-settle_cash_out_example :
    let left = settle_cash_out 3 (pos 4500) 7 "7" none 8 bank in
    Memᴰ (orphan_of ghost 3) (find_orphaned_transactions (λ i. i) [] ten_hours bank)
    × Memᴰ (orphan_of ghost 3) (find_orphaned_transactions (λ i. i) [] ten_hours left)
    × (find_wallet 5 (commit left (refund_orphan (some 1) (orphan_of ghost 3) 9 left))
        ≡ some (record purse { real_balance = pos 6000 +ℤ pos 4500 +ℤ abs (neg (pos 4000)) }))
unfolding find_wallet_of find
refund_orphan-settle_cash_out_example =
    refund_orphan-settle_cash_out (λ i. i) ten_hours 1 3 (pos 4500) 7 "7" 8 9 bank purse ghost
      bank-IsSound refl (omega arith) (refl, refl) [] (refl, refl) (omega arith) refl
      (Memᴰ.head refl) refl refl
