-- ===== src/Store.antt =====
-- The database that the services of apps/api share (libs/shared/prisma/schema.prisma, with the
-- enumerations of libs/shared/src/wallet.ts and libs/shared/src/audit.ts): wallets, ledger rows,
-- audit rows, table names, and the balance alerts handed to Redis.
-- A row's id is a number, since the code only compares ids. Amounts are whole hundredths.
-- Prisma's interactive transaction rolls back when its body throws: an operation is a function from
-- the store to `Result`, whose `err` carries no store, and `commit` keeps the old one then.
pub mod Table
pub mod Outcome
use cardgames.Prelude.{
  ℕ, Bool, true, false, ◌&&◌, ◌||◌, Option, none, some, List, [], ◌∷◌, ℤ, ◌==◌, if◌then◌else◌,
}
use Prim.Native.String.{String}
use Table.{find}

pub data TransactionType : Type 0 where
  deposit withdraw buy_in cash_out bonus rake admin_credit admin_debit : TransactionType
  tournament_buy_in tournament_rebuy tournament_addon tournament_prize tournament_refund :
      TransactionType

pub data TransactionStatus : Type 0 where
  pending approved rejected completed failed : TransactionStatus

pub data AuditAction : Type 0 where
  wallet_deposit wallet_withdraw wallet_transfer wallet_adjustment : AuditAction
  auto_reconciliation_refund : AuditAction

-- The texts `{tableId}:{timestamp}`, `tournament:{id}:{timestamp}` and
-- `tournament:{id}:refund:{timestamp}`.
pub data Reference : Type 0 where
  session : ℕ → ℕ → Reference
  tournament_entry : ℕ → ℕ → Reference
  tournament_exit : ℕ → ℕ → Reference

-- The template of a ledger row's description, with what it prints.
pub data Description : Type 0 where
  deposit_via withdrawal_comment withdrawal_to buy_in_for cash_out_from : String → Description
  admin_adjustment : String → String → Description
  tournament_cost : String → ℕ → ℕ → Description
  tournament_return : String → Description
  ghost_reconciliation : ℕ → Description
  rake_from : ℕ → ℕ → Description

pub record Wallet : Type 0 where
  pub id : ℕ
  pub user_id : ℕ
  pub real_balance : ℤ
  pub bonus_balance : ℤ

pub record Transaction : Type 0 where
  pub id : ℕ
  pub wallet_id : ℕ
  pub type : TransactionType
  pub amount : ℤ
  pub status : TransactionStatus
  pub description : Description
  pub balance_before : Option ℤ
  pub balance_after : Option ℤ
  pub reference_id : Option Reference
  pub rejection_reason : Option String
  pub processed_by_id : Option ℕ
  pub performed_by_id : Option ℕ

pub record Audit : Type 0 where
  pub user_id : ℕ
  pub action : AuditAction
  pub transaction_id : ℕ
  pub amount : ℤ

-- `WALLET_BALANCE_UPDATED` without its message, a text made of the other fields.
pub record Alert : Type 0 where
  pub user_id : ℕ
  pub new_balance : ℤ
  pub delta : ℤ
  pub transaction_type : TransactionType

pub record GameTable : Type 0 where
  pub id : ℕ
  pub name : String

pub record Store : Type 0 where
  pub wallets : List Wallet
  pub transactions : List Transaction
  pub audits : List Audit
  pub tables : List GameTable
  pub redis_up : Bool
  pub alerts : List Alert

-- What the services throw; the last two are the database's own errors.
pub data Error : Type 0 where
  wallet_not_found transaction_not_found tournament_not_found registration_not_found : Error
  insufficient_real_balance insufficient_for_buy_in insufficient_funds race_detected : Error
  amount_is_zero negative_balance not_pending : Error
  not_open_for_registration tournament_is_full already_registered cannot_unregister : Error
  cannot_edit cannot_delete : Error
  user_not_found user_exists name_taken cannot_ban_admin cannot_ban_superadmin rake_not_positive :
      Error
  invalid_bank_config history_item_not_found : Error
  unique_violation missing_relation unknown_value : Error

-- How an awaited call ends.
pub data Result {ℓ} (A : Type ℓ) : Type ℓ where
  err : Error → Result A
  ok : A → Result A

infixl 5 ◌>>◌ ◌>>=◌
abbrev pub ◌>>=◌ {ℓ μ} : {A : Type ℓ} {C : Type μ} → Result A → (A → Result C) → Result C
err thrown >>= next = err thrown
ok value >>= next = next value

-- A check, and what follows it.
abbrev pub ◌>>◌ {μ} : {C : Type μ} → Result (Unit {0}) → Result C → Result C
check >> next = check >>= λ passed. next

-- `if (test) throw new ...`
abbrev pub throw_if : Bool → Error → Result (Unit {0})
throw_if false e = ok tt
throw_if true e = err e

abbrev pub or_throw {ℓ} : {A : Type ℓ} → Option A → Error → Result A
or_throw none e = err e
or_throw (some a) e = ok a

-- The store after a call: what the body wrote if it returned, the old store if it threw.
abbrev pub commit {ℓ} : {A : Type ℓ} → Store → Result (A × Store) → Store
commit s (ok (a, t)) = t
commit s (err e) = s

abbrev pub is_completed : TransactionStatus → Bool
is_completed completed = true
is_completed _ = false

abbrev pub type_index : TransactionType → ℕ
type_index deposit = 0
type_index withdraw = 1
type_index buy_in = 2
type_index cash_out = 3
type_index bonus = 4
type_index rake = 5
type_index admin_credit = 6
type_index admin_debit = 7
type_index tournament_buy_in = 8
type_index tournament_rebuy = 9
type_index tournament_addon = 10
type_index tournament_prize = 11
type_index tournament_refund = 12

abbrev pub same_reference : Reference → Reference → Bool
same_reference (session a t) (session b u) = a == b && t == u
same_reference (tournament_entry a t) (tournament_entry b u) = a == b && t == u
same_reference (tournament_exit a t) (tournament_exit b u) = a == b && t == u
same_reference _ _ = false

-- A null reference clashes with nothing.
abbrev pub same_key : Option Reference → Option Reference → Bool
same_key (some r) (some q) = same_reference r q
same_key _ _ = false

-- The constraints on a new ledger row: its id and its pair [referenceId, type] are unique.
unfoldable pub clashes : Transaction → Transaction → Bool
clashes new old =
    new.id == old.id
    || same_key new.reference_id old.reference_id && type_index new.type == type_index old.type

unfoldable pub find_wallet : ℕ → Store → Option Wallet
find_wallet k s = find (λ w. w.id == k) s.wallets

unfoldable pub find_wallet_of : ℕ → Store → Option Wallet
find_wallet_of user s = find (λ w. w.user_id == user) s.wallets

unfoldable pub find_transaction : ℕ → Store → Option Transaction
find_transaction k s = find (λ t. t.id == k) s.transactions

-- `tx.transaction.create`, which the unique constraints may refuse.
unfoldable pub create_transaction : Transaction → Store → Result (Transaction × Store)
unfolding clashes
create_transaction row s = elim (find (clashes row) s.transactions) [
  | none ↦ ok (row, record s { transactions = row ∷ s.transactions })
  | some old ↦ err unique_violation
]

-- A name that is missing or empty gives way to the second.
abbrev pub or_text : Option String → String → String
or_text none other = other
or_text (some String.[]) other = other
or_text (some t) other = t
