-- ===== src/Wallet/Requests.antt =====
-- The operations that a player calls: `createDepositRequest`, `createWithdrawalRequest` and
-- `lockFunds`.
use cardgames.Prelude.{ℕ, Option, none, some, ℤ, pos, ◌+ℤ◌, neg, ltb_ℤ, ◌==◌}
use Prim.Native.String.{String}
use cardgames.Store.{
  Store, Transaction, Result, ok, ◌>>=◌, ◌>>◌, throw_if, or_text, insufficient_real_balance,
  insufficient_for_buy_in, race_detected, pending, completed, find_wallet, create_transaction,
  wallet_withdraw, wallet_transfer, Description, deposit_via, withdrawal_comment, withdrawal_to,
  buy_in_for, session, deposit, withdraw, buy_in,
}
use cardgames.Wallet.Base.{
  get_wallet_or_throw, balance_or_zero, take_if_covered, record_audit, push_balance_update,
  table_name,
}

-- `dto.amount || 0`
abbrev amount_or_zero : Option ℤ → ℤ
amount_or_zero none = pos 0
amount_or_zero (some a) = a

-- A pending deposit, which leaves the balance alone.
unfoldable pub create_deposit_request :
    ℕ → Option ℤ → Option String → ℕ → Store → Result (Transaction × Store)
unfolding get_wallet_or_throw
create_deposit_request user amount method new_id s = do
  w ← get_wallet_or_throw user s
  let balance_before = balance_or_zero (find_wallet w.id s)
  create_transaction
      (record {
        id = new_id;
        wallet_id = w.id;
        type = deposit;
        amount = amount_or_zero amount;
        status = pending;
        description = deposit_via (or_text method "Standard");
        balance_before = some balance_before;
        balance_after = some balance_before;
        reference_id = none;
        rejection_reason = none;
        processed_by_id = none;
        performed_by_id = none;
      })
      s

-- `dto.comment || ...`
abbrev pub withdrawal_text : Option String → Option String → Description
withdrawal_text none bank = withdrawal_to (or_text bank "Bank")
withdrawal_text (some String.[]) bank = withdrawal_to (or_text bank "Bank")
withdrawal_text (some c) bank = withdrawal_comment c

unfoldable pub create_withdrawal_request :
    ℕ → ℤ → Option String → Option String → ℕ → Store → Result (Transaction × Store)
unfolding get_wallet_or_throw
create_withdrawal_request user amount comment bank new_id s = do
  w ← get_wallet_or_throw user s
  throw_if (ltb_ℤ w.real_balance amount) insufficient_real_balance
  let (count, wallets) = take_if_covered w.id amount s
  throw_if (count == 0) race_detected
  let taken = record s { wallets = wallets }
  let balance_after = balance_or_zero (find_wallet w.id taken)
  (t, created) ←
      create_transaction
        (record {
          id = new_id;
          wallet_id = w.id;
          type = withdraw;
          amount = neg amount;
          status = pending;
          description = withdrawal_text comment bank;
          balance_before = some (balance_after +ℤ amount);
          balance_after = some balance_after;
          reference_id = none;
          rejection_reason = none;
          processed_by_id = none;
          performed_by_id = none;
        })
        taken
  let audited = record_audit user wallet_withdraw t created
  ok (t, push_balance_update user w.id (neg amount) withdraw audited)

-- `now` is `Date.now()`; the pair of the table and the time links the row to its cash-out.
unfoldable pub lock_funds : ℕ → ℤ → ℕ → String → ℕ → ℕ → Store → Result (Transaction × Store)
unfolding get_wallet_or_throw
lock_funds user amount table_id table_text now new_id s = do
  w ← get_wallet_or_throw user s
  throw_if (ltb_ℤ w.real_balance amount) insufficient_for_buy_in
  let (count, wallets) = take_if_covered w.id amount s
  throw_if (count == 0) race_detected
  let taken = record s { wallets = wallets }
  let balance_after = balance_or_zero (find_wallet w.id taken)
  (t, created) ←
      create_transaction
        (record {
          id = new_id;
          wallet_id = w.id;
          type = buy_in;
          amount = neg amount;
          status = completed;
          description = buy_in_for (table_name table_id table_text taken);
          balance_before = some (balance_after +ℤ amount);
          balance_after = some balance_after;
          reference_id = some (session table_id now);
          rejection_reason = none;
          processed_by_id = none;
          performed_by_id = none;
        })
        taken
  let audited = record_audit user wallet_transfer t created
  ok (t, push_balance_update user w.id (neg amount) buy_in audited)
