-- ===== src/Wallet/CashOut.antt =====
-- `settleCashOut`, called when a player leaves a table. It throws nothing: the unique constraint
-- on [referenceId, type] turns a second settlement of a session into no change.
use cardgames.Prelude.{ℕ, Option, none, some, ℤ, pos, ◌+ℤ◌, leb_ℤ, if◌then◌else◌}
use Prim.Native.String.{String}
use cardgames.Store.{
  Store, Wallet, Transaction, Reference, Result, ok, ◌>>=◌, commit, completed, cash_out,
  cash_out_from, find_wallet_of, create_transaction,
}
use cardgames.Wallet.Base.{set_balance, push_balance_update, table_name}

-- The body of the `$transaction`, once the wallet is locked.
settle_locked :
    Wallet → ℤ → ℕ → String → Option Reference → ℕ → Store → Result (Transaction × Store)
settle_locked w amount table_id table_text reference new_id s =
    let balance_after = w.real_balance +ℤ amount in
    let written = set_balance w.id (λ _. balance_after) s in
    create_transaction
      (record {
        id = new_id;
        wallet_id = w.id;
        type = cash_out;
        amount = amount;
        status = completed;
        description = cash_out_from (table_name table_id table_text written);
        balance_before = some w.real_balance;
        balance_after = some balance_after;
        reference_id = reference;
        rejection_reason = none;
        processed_by_id = none;
        performed_by_id = none;
      })
      written

unfoldable pub settle_cash_out : ℕ → ℤ → ℕ → String → Option Reference → ℕ → Store → Store
unfolding settle_locked
settle_cash_out user amount table_id table_text reference new_id s =
    let settled : Store = elim (find_wallet_of user s) [
      | none ↦ s
      | some w ↦ commit s (do
        (t, done) ← settle_locked w amount table_id table_text reference new_id s
        ok (t, push_balance_update user w.id amount cash_out done))
    ] in
    if leb_ℤ amount (pos 0) then s else settled
