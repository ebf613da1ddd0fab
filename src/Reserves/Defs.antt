-- ===== src/Reserves/Defs.antt =====
-- `runAudit`, with the sums of calculateSystemPool, calculatePlayerWallets, calculateHouseBalance and
-- sumChipsFromRedis. The type of a user is a parameter, as the database keeps it; a table's amounts
-- are hundredths, as all amounts, and its pot is read by `parseInt`. Whether Redis takes a message and
-- whether the audit row is accepted are parameters: both errors are caught.
use cardgames.Prelude.{
  ℕ, ◌+◌, ◌*◌, Bool, true, false, ◌&&◌, Option, none, some, List, [], ◌∷◌, ℤ, pos, ◌+ℤ◌, ◌-ℤ◌, abs,
  is_zero, ◌==◌, if◌then◌else◌,
}
use Prim.Native.Nat.{◌/◌}
use cardgames.Store.{
  Store, Wallet, Transaction, TransactionType, is_completed, deposit, withdraw, admin_credit,
  admin_debit, type_index,
}
use cardgames.Reserves.Total.{total}

pub data UserType : Type 0 where
  player house bot : UserType

abbrev pub is_player : UserType → Bool
is_player player = true
is_player _ = false

abbrev pub is_house : UserType → Bool
is_house house = true
is_house _ = false

-- `WHERE type = ... AND status = 'COMPLETED'`
abbrev pub is_counted : TransactionType → Transaction → Bool
is_counted type t = type_index t.type == type_index type && is_completed t.status

-- What one row adds to the sum of a type, under `f`.
abbrev pub counted_amount : TransactionType → (ℤ → ℤ) → Transaction → ℤ
counted_amount type f t = if is_counted type t then f t.amount else pos 0

pub record SystemPool : Type 0 where
  pub total_deposits : ℤ
  pub total_withdrawals : ℤ
  pub total_admin_credits : ℤ
  pub total_admin_debits : ℤ
  pub net_pool : ℤ

unfoldable pub calculate_system_pool : List Transaction → SystemPool
calculate_system_pool ts =
    let total_deposits = total (counted_amount deposit (λ a. a)) ts in
    let total_withdrawals = total (counted_amount withdraw abs) ts in
    let total_admin_credits = total (counted_amount admin_credit (λ a. a)) ts in
    let total_admin_debits = total (counted_amount admin_debit abs) ts in
    record {
      total_deposits = total_deposits;
      total_withdrawals = total_withdrawals;
      total_admin_credits = total_admin_credits;
      total_admin_debits = total_admin_debits;
      net_pool = total_deposits +ℤ total_admin_credits -ℤ total_withdrawals -ℤ total_admin_debits;
    }

pub record PlayerWallets : Type 0 where
  pub real : ℤ
  pub bonus : ℤ
  pub sum : ℤ

-- A column of the wallets whose users the test accepts.
abbrev pub column : (UserType → Bool) → (ℕ → UserType) → (Wallet → ℤ) → Wallet → ℤ
column accepts user_type field w = if accepts (user_type w.user_id) then field w else pos 0

unfoldable pub calculate_player_wallets : (ℕ → UserType) → List Wallet → PlayerWallets
calculate_player_wallets user_type ws =
    let real = total (column is_player user_type (λ w. w.real_balance)) ws in
    let bonus = total (column is_player user_type (λ w. w.bonus_balance)) ws in
    record { real = real; bonus = bonus; sum = real +ℤ bonus }

unfoldable pub calculate_house_balance : (ℕ → UserType) → List Wallet → ℤ
calculate_house_balance user_type ws = total (column is_house user_type (λ w. w.real_balance)) ws

-- The chips and the bet of a seat.
pub record SeatChips : Type 0 where
  pub chips : ℕ
  pub current_bet : ℕ

-- A table in Redis; a seat that does not parse is none.
pub record TableChips : Type 0 where
  pub pot : ℕ
  pub players : List (Option SeatChips)

unfoldable pub player_chip_count : List (Option SeatChips) → ℕ
player_chip_count [] = 0
player_chip_count (none ∷ seats) = player_chip_count seats
player_chip_count (some p ∷ seats) = p.chips + p.current_bet + player_chip_count seats

-- `parseInt(pot)` drops the hundredths.
unfoldable pub table_chips : TableChips → ℕ
unfolding player_chip_count
table_chips t = t.pot / 100 * 100 + player_chip_count t.players

-- The total, and the count of the tables.
unfoldable pub sum_chips_from_redis : List TableChips → ℕ × ℕ
unfolding table_chips
sum_chips_from_redis [] = (0, 0)
sum_chips_from_redis (t ∷ ts) =
    let rest = sum_chips_from_redis ts in (table_chips t + rest.0, 1 + rest.1)

pub data AuditStatus : Type 0 where
  matched drift : AuditStatus

abbrev pub status_of : ℤ → AuditStatus
status_of discrepancy = if is_zero discrepancy then matched else drift

pub record Report : Type 0 where
  pub total_wallet_balance : ℤ
  pub total_chips_in_play : ℤ
  pub expected_balance : ℤ
  pub system_discrepancy : ℤ
  pub status : AuditStatus
  pub pool : SystemPool
  pub table_count : ℕ

-- The messages on `system:maintenance` and `global_alerts`, with the discrepancy.
pub data Message : Type 0 where
  maintenance drift_alert : ℤ → Message

pub record AuditRun : Type 0 where
  pub report : Report
  pub published : List Message
  pub is_logged : Bool

module _ (user_type : ℕ → UserType) (tables : List TableChips) where
  unfoldable pub report_of : Store → Report
  unfolding calculate_system_pool calculate_player_wallets calculate_house_balance
  report_of s =
      let pool = calculate_system_pool s.transactions in
      let player_wallets = calculate_player_wallets user_type s.wallets in
      let house_balance = calculate_house_balance user_type s.wallets in
      let redis_chips = sum_chips_from_redis tables in
      let wallets = player_wallets.sum +ℤ house_balance in
      let discrepancy = wallets +ℤ pos redis_chips.0 -ℤ pool.net_pool in
      record {
        total_wallet_balance = wallets;
        total_chips_in_play = pos redis_chips.0;
        expected_balance = pool.net_pool;
        system_discrepancy = discrepancy;
        status = status_of discrepancy;
        pool = pool;
        table_count = redis_chips.1;
      }

-- What follows a report: the lockdown, the alert and the audit row of a drift.
abbrev pub respond : Bool → Bool → Report → AuditRun
respond redis_up system_user report = elim (report.status) [
  | matched ↦ record { report = report; published = []; is_logged = false }
  | drift ↦
      let d = report.system_discrepancy in
      record {
        report = report;
        published = if redis_up then maintenance d ∷ drift_alert d ∷ [] else [];
        is_logged = system_user;
      }
]

-- The first two say whether Redis takes the messages, and the database the audit row.
unfoldable pub run_audit : Bool → Bool → (ℕ → UserType) → List TableChips → Store → AuditRun
run_audit redis_up system_user user_type tables s =
    respond redis_up system_user (report_of user_type tables s)
