-- ===== src/Wallet/Base.antt =====
-- What the operations of WalletService share: `getWalletOrThrow`, `getBalance`, `createWallet`,
-- the audit row and `pushBalanceUpdate`.
use cardgames.Prelude.{
  ℕ, Option, none, some, ◌∷◌, ℤ, pos, ◌-ℤ◌, leb_ℤ, ◌&&◌, ◌==◌, if◌then◌else◌, List,
}
use Prim.Native.String.{String}
use cardgames.Store.{
  Store, Wallet, Transaction, Result, ok, err, or_throw, or_text, wallet_not_found, find_wallet,
  find_wallet_of, TransactionType, AuditAction, unique_violation,
}
use cardgames.Store.Table.{find, update_many, update}

unfoldable pub get_wallet_or_throw : ℕ → Store → Result Wallet
get_wallet_or_throw user s = or_throw (find_wallet_of user s) wallet_not_found

abbrev pub fresh_wallet : ℕ → ℕ → Wallet
fresh_wallet user new_id = record {
  id = new_id;
  user_id = user;
  real_balance = pos 0;
  bonus_balance = pos 0;
}

-- `createWallet`: the user's number is unique among the wallets, and so is the new id.
unfoldable pub create_wallet : ℕ → ℕ → Store → Result (Wallet × Store)
create_wallet user new_id s = elim (find_wallet_of user s) [
  | some w ↦ err unique_violation
  | none ↦ elim (find_wallet new_id s) [
    | some w ↦ err unique_violation
    | none ↦
        ok (fresh_wallet user new_id, record s { wallets = fresh_wallet user new_id ∷ s.wallets })
  ]
]

-- `getBalance` makes the wallet of a user who has none.
unfoldable pub get_balance : ℕ → ℕ → Store → Result (Wallet × Store)
unfolding create_wallet
get_balance user new_id s = elim (find_wallet_of user s) [
  | some w ↦ ok (w, s)
  | none ↦ create_wallet user new_id s
]

-- `updatedWallet ? Number(updatedWallet.realBalance) : 0`
abbrev pub balance_or_zero : Option Wallet → ℤ
balance_or_zero none = pos 0
balance_or_zero (some w) = w.real_balance

-- `updateMany` with the condition `realBalance: { gte: amount }`, then the count of rows.
unfoldable pub take_if_covered : ℕ → ℤ → Store → ℕ × List Wallet
take_if_covered wallet_id amount s =
    update_many (λ w. w.id == wallet_id && leb_ℤ amount w.real_balance)
      (λ w. record w { real_balance = w.real_balance -ℤ amount }) s.wallets

-- `wallet.update` of the one row with this id.
unfoldable pub set_balance : ℕ → (ℤ → ℤ) → Store → Store
set_balance wallet_id f s = record s {
  wallets =
      update (λ w. w.id == wallet_id) (λ w. record w { real_balance = f w.real_balance }) s.wallets;
}

-- `audit.record` inside the transaction.
unfoldable pub record_audit : ℕ → AuditAction → Transaction → Store → Store
record_audit user action t s = record s {
  audits =
      record { user_id = user; action = action; transaction_id = t.id; amount = t.amount }
      ∷ s.audits;
}

-- `pushBalanceUpdate`: a failure to publish is caught.
unfoldable pub push_balance_update : ℕ → ℕ → ℤ → TransactionType → Store → Store
push_balance_update user wallet_id delta type s = elim (find_wallet wallet_id s) [
  | none ↦ s
  | some w ↦
      if s.redis_up
      then record s {
        alerts =
            record {
              user_id = user;
              new_balance = w.real_balance;
              delta = delta;
              transaction_type = type;
            }
            ∷ s.alerts;
      }
      else s
]

-- `gameTable?.name || tableId`, where `own_text` is the id as a text.
unfoldable pub table_name : ℕ → String → Store → String
table_name table_id own_text s = elim (find (λ g. g.id == table_id) s.tables) [
  | none ↦ own_text
  | some g ↦ or_text (some g.name) own_text
]
