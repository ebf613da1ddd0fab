-- ===== src/Wallet/Admin.antt =====
-- The operations of an administrator: `adminAdjustBalance` and `adminProcessTransaction`.
use cardgames.Prelude.{
  ℕ, Bool, true, false, not, Option, none, some, ℤ, pos, ◌+ℤ◌, ◌-ℤ◌, abs, ltb_ℤ, is_zero, ◌==◌,
  if◌then◌else◌,
}
use Prim.Native.String.{String}
use cardgames.Store.{
  Store, Transaction, Result, ok, ◌>>=◌, ◌>>◌, throw_if, or_throw, TransactionType,
  TransactionStatus, pending, rejected, completed, failed, wallet_not_found, transaction_not_found,
  amount_is_zero, negative_balance, not_pending, missing_relation, unknown_value, find_wallet,
  find_wallet_of, find_transaction, create_transaction, wallet_deposit, wallet_adjustment,
  admin_adjustment, admin_credit, admin_debit, deposit, withdraw,
}
use cardgames.Store.Table.{update}
use cardgames.Wallet.Base.{
  get_wallet_or_throw, balance_or_zero, set_balance, record_audit, push_balance_update,
}

-- `isPositive` of a decimal holds at zero too; zero has been refused by then.
unfoldable pub admin_adjust_balance :
    ℕ → ℤ → String → String → ℕ → ℕ → Store → Result (Transaction × Store)
unfolding get_wallet_or_throw
admin_adjust_balance user amount reason kind admin new_id s = do
  w ← get_wallet_or_throw user s
  throw_if (is_zero amount) amount_is_zero
  locked ← or_throw (find_wallet_of user s) wallet_not_found
  let balance_before = locked.real_balance
  let balance_after = balance_before +ℤ amount
  throw_if (ltb_ℤ balance_after (pos 0)) negative_balance
  let written = set_balance w.id (λ _. balance_after) s
  (t, created) ←
      create_transaction
        (record {
          id = new_id;
          wallet_id = w.id;
          type = if ltb_ℤ amount (pos 0) then admin_debit else admin_credit;
          amount = amount;
          status = completed;
          description = admin_adjustment reason kind;
          balance_before = some balance_before;
          balance_after = some balance_after;
          reference_id = none;
          rejection_reason = none;
          processed_by_id = none;
          performed_by_id = some admin;
        })
        written
  let audited = record_audit user wallet_adjustment t created
  let alert_type = if ltb_ℤ (pos 0) amount then admin_credit else admin_debit
  ok (t, push_balance_update user w.id amount alert_type audited)

abbrev pub is_pending : TransactionStatus → Bool
is_pending pending = true
is_pending _ = false

-- What `adminProcessTransaction` does by the new status and the type: credit a completed deposit,
-- give back a rejected withdrawal, or move nothing.
pub data Move : Type 0 where
  credit give_back keep : Move

abbrev pub move : TransactionStatus → TransactionType → Move
move completed deposit = credit
move rejected withdraw = give_back
move _ _ = keep

-- `amountToProcess`: a final amount counts where the new status is COMPLETED.
abbrev pub amount_to_process : TransactionStatus → Option ℤ → ℤ → ℤ
amount_to_process completed (some final) old = final
amount_to_process _ _ old = old

-- `update` of the one ledger row with this id.
unfoldable pub set_transaction : ℕ → (Transaction → Transaction) → Store → Store
set_transaction k f s = record s { transactions = update (λ t. t.id == k) f s.transactions }

-- A final amount replaces the row's amount where the new status is COMPLETED.
abbrev pub amend : TransactionStatus → Option ℤ → ℕ → Store → Store
amend completed (some final) k s = set_transaction k (λ r. record r { amount = final }) s
amend _ _ k s = s

-- The increment of the balance. The refund adds the stored amount as it is.
abbrev pub apply_move : Move → ℕ → ℤ → ℤ → Store → Store
apply_move credit wallet processed stored s = set_balance wallet (λ b. b +ℤ processed) s
apply_move give_back wallet processed stored s = set_balance wallet (λ b. b +ℤ stored) s
apply_move keep wallet processed stored s = s

-- `ledgerAmount`
abbrev pub ledger_amount : Move → ℤ → ℤ → ℤ
ledger_amount credit processed stored = processed
ledger_amount give_back processed stored = abs stored
ledger_amount keep processed stored = pos 0

-- `rejectionReason || null`
abbrev or_null : Option String → Option String
or_null (some String.[]) = none
or_null t = t

-- The audit row and the alert at the end.
unfoldable pub announce : Move → ℕ → ℕ → ℤ → ℤ → Transaction → Store → Store
announce credit user wallet processed stored t s =
    push_balance_update user wallet processed deposit (record_audit user wallet_deposit t s)
announce give_back user wallet processed stored t s =
    push_balance_update user wallet (abs stored) withdraw (record_audit user wallet_adjustment t s)
announce keep user wallet processed stored t s = s

-- The values of the database's enumeration, which has no FAILED; the client refuses to write another.
abbrev pub is_storable : TransactionStatus → Bool
is_storable failed = false
is_storable _ = true

unfoldable pub admin_process_transaction :
    ℕ
    → TransactionStatus
    → Option ℤ
    → Option String
    → Option ℕ
    → Store
    → Result (Transaction × Store)
unfolding set_transaction
admin_process_transaction k status final reason admin s = do
  t ← or_throw (find_transaction k s) transaction_not_found
  w ← or_throw (find_wallet t.wallet_id s) missing_relation
  throw_if (not (is_pending t.status)) not_pending
  let processed = amount_to_process status final t.amount
  let act = move status t.type
  let moved = apply_move act t.wallet_id processed t.amount (amend status final k s)
  let balance_after = balance_or_zero (find_wallet t.wallet_id moved)
  let balance_before = balance_after -ℤ ledger_amount act processed t.amount
  let close = λ (r : Transaction). record r {
    status = status;
    rejection_reason = or_null reason;
    processed_by_id = admin;
    balance_before = some balance_before;
    balance_after = some balance_after;
  }
  throw_if (not (is_storable status)) unknown_value
  let closed = set_transaction k close moved
  let updated = close (record t { amount = processed })
  ok (updated, announce act w.user_id t.wallet_id processed t.amount updated closed)
