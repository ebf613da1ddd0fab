-- ===== src/Reserves/Drift.antt =====
-- What the operations of the wallets do to the audit.
use cardgames.Prelude.{
  ℕ, ◌≡◌, ◌∙◌, refl, subst, Bool, true, false, Option, none, some, List, [], ◌∷◌, arith, ℤ, pos,
  ◌+ℤ◌, ◌-ℤ◌, ◌≤ℤ◌, ◌<ℤ◌, neg, abs, int_laws, neg_parts, parts_of_eq, ◌==◌, ==_iff, if◌then◌else◌,
  is_zero,
}
use Prim.Native.String.{String}
use cardgames.Store.{
  Store, Wallet, Transaction, TransactionType, AuditAction, wallet_transfer, wallet_withdraw,
  commit, find_wallet_of, buy_in, session, deposit, withdraw, admin_credit, admin_debit,
}
use cardgames.Store.Table.{find, find_test}
use cardgames.Wallet.Base.{push_balance_update, record_audit}
use cardgames.Wallet.Requests.{create_withdrawal_request, lock_funds}
use cardgames.Wallet.Ledger.{IsSound}
use cardgames.Wallet.Posting.{find_own, wallets-push, transactions-push}
use cardgames.Wallet.Effects.{IsNew, paid, withdrawal_row, withdrawal_done}
use cardgames.Wallet.RoundTrip.{buy_in_row, lock_done}
use cardgames.Reserves.Total.{total, total-update}
use cardgames.Reserves.Defs.{
  UserType, player, is_player, is_house, counted_amount, column, calculate_system_pool,
  calculate_player_wallets, calculate_house_balance, TableChips, sum_chips_from_redis, report_of,
  run_audit, drift, Report, respond, status_of, maintenance, drift_alert,
}

-- A row that the pool does not count.
abbrev IsUncounted : Transaction → Type 0
IsUncounted t =
    (counted_amount deposit (λ a. a) t ≡ pos 0)
    × (counted_amount admin_credit (λ a. a) t ≡ pos 0)
    × (counted_amount withdraw abs t ≡ pos 0)
    × (counted_amount admin_debit abs t ≡ pos 0)

pool_same :
    (row : Transaction) (ts : List Transaction)
    → IsUncounted row
    → (calculate_system_pool (row ∷ ts)).net_pool ≡ (calculate_system_pool ts).net_pool
unfolding calculate_system_pool total
pool_same row ts idle = rw (idle.0, idle.1, idle.2, idle.3) (omega int_laws)

-- The sum of all wallets, as the report has it.
held : (ℕ → UserType) → List Wallet → ℤ
held user_type ws =
    (calculate_player_wallets user_type ws).sum +ℤ calculate_house_balance user_type ws

module _ (user_type : ℕ → UserType) (user : ℕ) (s : Store) (w : Wallet) (h : IsSound s)
    (e : find_wallet_of user s ≡ some w) (plays : user_type user ≡ player) (amount : ℤ) where
  owner : user_type w.user_id ≡ player
  owner =
      rw
        ((==_iff w.user_id user).0
          (find_test (λ v. v.user_id == user) s.wallets w (unfold find_wallet_of in e)))
        plays

  -- A sum over the wallets after a debit.
  column_debited :
      (accepts : UserType → Bool) (field : Wallet → ℤ)
      → total (column accepts user_type field) (paid w amount s).wallets
          +ℤ (if accepts player then field w else pos 0)
        ≡ total (column accepts user_type field) s.wallets
          +ℤ (if accepts player
              then field (record w { real_balance = w.real_balance -ℤ amount })
              else pos 0)
  column_debited accepts field =
      subst
        (λ k.
          total (column accepts user_type field) (paid w amount s).wallets
            +ℤ (if accepts k then field w else pos 0)
          ≡ total (column accepts user_type field) s.wallets
            +ℤ (if accepts k
                then field (record w { real_balance = w.real_balance -ℤ amount })
                else pos 0))
        owner
        (total-update (column accepts user_type field) (λ v. v.id) w.id _ s.wallets w
          h.unique_wallets (find_own user s w h e))

  held_debited : held user_type (paid w amount s).wallets +ℤ amount ≡ held user_type s.wallets
  unfolding held calculate_player_wallets calculate_house_balance
  held_debited = omega (
    int_laws,
    parts_of_eq _ _ (column_debited is_player (λ v. v.real_balance)),
    parts_of_eq _ _ (column_debited is_player (λ v. v.bonus_balance)),
    parts_of_eq _ _ (column_debited is_house (λ v. v.real_balance)),
  )

  -- A debit of a player's wallet under a row that the pool does not count.
  debited :
      (before after : List TableChips) (row : Transaction) (t : Store)
      → IsUncounted row
      → t.wallets ≡ (paid w amount s).wallets
      → t.transactions ≡ row ∷ s.transactions
      → (report_of user_type after t).system_discrepancy
          +ℤ amount
          +ℤ pos (sum_chips_from_redis before).0
        ≡ (report_of user_type before s).system_discrepancy +ℤ pos (sum_chips_from_redis after).0
  unfolding report_of held calculate_player_wallets calculate_house_balance
  debited before after row t idle ws ts =
      rw (ws, ts, pool_same row s.transactions idle)
        (omega (int_laws, parts_of_eq _ _ held_debited))

  -- A row, its audit and its alert, after a debit.
  posted :
      (row : Transaction) (k : ℕ) (delta : ℤ) (type : TransactionType) (action : AuditAction)
      (before after : List TableChips)
      → IsUncounted row
      → (report_of user_type after (
            push_balance_update user k delta type (
              record_audit user action row (record (paid w amount s) {
                transactions = row ∷ s.transactions;
              })))).system_discrepancy
          +ℤ amount
          +ℤ pos (sum_chips_from_redis before).0
        ≡ (report_of user_type before s).system_discrepancy +ℤ pos (sum_chips_from_redis after).0
  unfolding record_audit
  posted row k delta type action before after idle =
      debited before after row _ idle (wallets-push user k delta type _)
        (transactions-push user k delta type _)

-- What an audit does that finds a drift.
run_audit-drift :
    (system_user : Bool) (user_type : ℕ → UserType) (tables : List TableChips) (s : Store) (d : ℤ)
    → (report_of user_type tables s).system_discrepancy ≡ d
    → is_zero d ≡ false
    → let run = run_audit true system_user user_type tables s in
      (run.report.system_discrepancy ≡ d)
      × (run.report.status ≡ drift)
      × (run.published ≡ maintenance d ∷ drift_alert d ∷ [])
unfolding run_audit
run_audit-drift system_user user_type tables s d e nonzero =
    by_report (report_of user_type tables s) e (unfold report_of in refl)
  where
    by_report :
        (r : Report)
        → r.system_discrepancy ≡ d
        → r.status ≡ status_of r.system_discrepancy
        → let run = respond true system_user r in
          (run.report.system_discrepancy ≡ d)
          × (run.report.status ≡ drift)
          × (run.published ≡ maintenance d ∷ drift_alert d ∷ [])
    by_report r q st =
        let is_drift : r.status ≡ drift = st ∙ rw q (rw nonzero refl) in
        rw (respond, is_drift, q) (refl, is_drift, refl)

-- A withdrawal that waits for its decision sounds the alarm: in a sound store that the audit finds in
-- balance, a player whose wallet covers a positive amount asks for it under a new row id. The next
-- audit, over the same tables, reports a drift of exactly that amount and, where Redis is up,
-- publishes the lockdown of all tables and the alert.
pub run_audit-create_withdrawal_request :
    (user_type : ℕ → UserType) (tables : List TableChips) (system_user : Bool) (user : ℕ)
    (amount : ℤ) (comment bank : Option String) (new_id : ℕ) (s : Store) (w : Wallet)
    → IsSound s
    → find_wallet_of user s ≡ some w
    → user_type user ≡ player
    → pos 0 <ℤ amount
    → amount ≤ℤ w.real_balance
    → find (λ t. t.id == new_id) s.transactions ≡ none
    → (report_of user_type tables s).system_discrepancy ≡ pos 0
    → let s' = commit s (create_withdrawal_request user amount comment bank new_id s) in
      let run = run_audit true system_user user_type tables s' in
      (run.report.system_discrepancy ≡ neg amount)
      × (run.report.status ≡ drift)
      × (run.published ≡ maintenance (neg amount) ∷ drift_alert (neg amount) ∷ [])
unfolding run_audit
run_audit-create_withdrawal_request user_type tables system_user user amount comment bank new_id s w
      h e plays positive enough new balanced =
    run_audit-drift system_user user_type tables _ (neg amount)
      (rw (withdrawal_done user amount comment bank new_id s w h e enough new) (
        omega (
          int_laws,
          parts_of_eq _ _ balanced,
          parts_of_eq _ _ (
              posted user_type user s w h e plays amount row w.id (neg amount) withdraw
                wallet_withdraw tables tables (refl, refl, refl, refl)),
        )))
      (ground (arith, neg_parts amount))
  where
    row : Transaction
    row = withdrawal_row w amount comment bank new_id

-- A buy-in does not: in a sound store, a player whose wallet covers the amount sits down under a new
-- session reference and row id. If the chips on the tables grow by the amount, the audit's
-- discrepancy stays as it was.
pub report_of-lock_funds :
    (user_type : ℕ → UserType) (before after : List TableChips) (user : ℕ) (amount : ℤ)
    (table_id : ℕ) (table_text : String) (now new_id : ℕ) (s : Store) (w : Wallet)
    → IsSound s
    → find_wallet_of user s ≡ some w
    → user_type user ≡ player
    → amount ≤ℤ w.real_balance
    → IsNew new_id buy_in (some (session table_id now)) s
    → pos (sum_chips_from_redis after).0 ≡ pos (sum_chips_from_redis before).0 +ℤ amount
    → (report_of user_type after
        (commit s (lock_funds user amount table_id table_text now new_id s))).system_discrepancy
      ≡ (report_of user_type before s).system_discrepancy
report_of-lock_funds user_type before after user amount table_id table_text now new_id s w h e plays
      enough new moved =
    rw (lock_done user amount table_id table_text now new_id s w h e enough new) (
      omega (
        int_laws,
        parts_of_eq _ _ moved,
        parts_of_eq _ _ (
            posted user_type user s w h e plays amount row w.id (neg amount) buy_in wallet_transfer
              before after idle),
      ))
  where
    row : Transaction
    row = buy_in_row user amount table_id table_text now new_id s w h e enough new

    idle : IsUncounted row
    idle = unfold buy_in_row in (refl, refl, refl, refl)
