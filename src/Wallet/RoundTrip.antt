-- ===== src/Wallet/RoundTrip.antt =====
-- A whole table session: the buy-in of `lockFunds`, then `settleCashOut` with the reference that
-- the buy-in returned.
use cardgames.Prelude.{
  ℕ, ◌≡◌, ◌≢◌, refl, true, false, Option, none, some, ◌∷◌, arith, ℤ, pos, ◌+ℤ◌, ◌-ℤ◌, ◌≤ℤ◌, ◌<ℤ◌,
  ltb_ℤ, leb_ℤ, neg, ◌==◌,
}
use Prim.Native.String.{String}
use mathlib.Core.Bool.{and-false}
use cardgames.Store.{
  Store, Wallet, Transaction, Reference, same_reference, buy_in, cash_out, commit, find_wallet,
  find_wallet_of, ok, session, completed, buy_in_for, wallet_transfer,
}
use cardgames.Store.Table.{find, find-update_found}
use cardgames.Wallet.Base.{push_balance_update, record_audit, table_name}
use cardgames.Wallet.Requests.{lock_funds}
use cardgames.Wallet.CashOut.{settle_cash_out}
use cardgames.Wallet.Ledger.{IsSound}
use cardgames.Wallet.Posting.{take_if_covered_lem, find_own, wallets-push, transactions-push}
use cardgames.Wallet.Effects.{IsNew, paid, create_transaction-IsNew, add_back, find_wallet-paid}
use cardgames.Wallet.Sound.{lock_funds-IsSound}
use cardgames.Wallet.Session.{settle_cash_out-credits}

module _ (user : ℕ) (amount : ℤ) (table_id : ℕ) (table_text : String) (now new_id : ℕ) (s : Store)
    (w : Wallet) (h : IsSound s) (e : find_wallet_of user s ≡ some w)
    (enough : amount ≤ℤ w.real_balance)
    (new : IsNew new_id buy_in (some (session table_id now)) s) where
  unfoldable pub buy_in_row : Transaction
  buy_in_row = record {
    id = new_id;
    wallet_id = w.id;
    type = buy_in;
    amount = neg amount;
    status = completed;
    description = buy_in_for (table_name table_id table_text (paid w amount s));
    balance_before = some w.real_balance;
    balance_after = some (w.real_balance -ℤ amount);
    reference_id = some (session table_id now);
    rejection_reason = none;
    processed_by_id = none;
    performed_by_id = none;
  }

  pub lock_done :
      lock_funds user amount table_id table_text now new_id s
      ≡ ok (
        buy_in_row,
        push_balance_update user w.id (neg amount) buy_in (
            record_audit user wallet_transfer buy_in_row
              (record (paid w amount s) { transactions = buy_in_row ∷ s.transactions })),
      )
  unfolding lock_funds buy_in_row
  lock_done =
      rw (e, not_short, take_if_covered_lem user w amount s h e, is_covered)
        (rw
          (
            find_wallet-paid w amount s (find_own user s w h e),
            add_back w.real_balance amount,
            create_transaction-IsNew buy_in_row (paid w amount s) new,
          )
          refl)
    where
      not_short : ltb_ℤ w.real_balance amount ≡ false
      not_short = ground arith

      is_covered : leb_ℤ amount w.real_balance ≡ true
      is_covered = ground arith

  unfoldable pub seated : Store
  seated = commit s (lock_funds user amount table_id table_text now new_id s)

  pub seated-wallet :
      find_wallet_of user seated ≡ some (record w { real_balance = w.real_balance -ℤ amount })
  unfolding find_wallet_of seated
  seated-wallet =
      rw (lock_done, wallets-push)
        (unfold record_audit in
          find-update_found (λ v. v.id) _ _ s.wallets w h.unique_wallets (λ v. refl) e)

  other_row : (other_id : ℕ) → other_id ≢ new_id → (new_id == other_id) ≡ false
  other_row other_id ne = ground arith

  pub seated-IsNew :
      (other_id : ℕ) (r : Option Reference)
      → other_id ≢ new_id
      → IsNew other_id cash_out r s
      → IsNew other_id cash_out r seated
  unfolding seated
  seated-IsNew other_id none ne fresh =
      rw (lock_done, transactions-push)
        (unfold record_audit find buy_in_row in (rw (other_row other_id ne) fresh.0, fresh.1))
  seated-IsNew other_id (some r) ne fresh =
      rw (lock_done, transactions-push)
        (unfold record_audit find buy_in_row in
          (
            rw (other_row other_id ne) fresh.0,
            rw (and-false (same_reference r (session table_id now))) fresh.1,
          ))

  -- A session conserves money: in a sound store, a user whose wallet covers the buy-in sits down
  -- under a new session reference and row id and leaves with a positive number of chips, under
  -- another new row id. The balance then differs from the first by exactly the chips minus the
  -- buy-in.
  pub buy_in-cash_out :
      (chips : ℤ) (cash_id : ℕ)
      → pos 0 <ℤ chips
      → cash_id ≢ new_id
      → IsNew cash_id cash_out (some (session table_id now)) s
      → let sat = commit s (lock_funds user amount table_id table_text now new_id s) in
        let left =
          settle_cash_out user chips table_id table_text
            (some (session table_id now))
            cash_id
            sat in
        find_wallet w.id left ≡ some (record w { real_balance = w.real_balance -ℤ amount +ℤ chips })
  unfolding seated
  buy_in-cash_out chips cash_id positive ne fresh =
      settle_cash_out-credits user chips table_id table_text _ cash_id seated _
        (lock_funds-IsSound user amount table_id table_text now new_id s h) seated-wallet positive
        (seated-IsNew cash_id (some (session table_id now)) ne fresh)
