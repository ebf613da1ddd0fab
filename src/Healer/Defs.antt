-- ===== src/Healer/Defs.antt =====
-- `findOrphanedTransactions` and `autoResolveGhostMoney`. The moment at which the database wrote a
-- row, the players that Redis seats, and the user that the text SYSTEM names, if there is one, are
-- parameters: an audit row's foreign key asks for the user.
use cardgames.Prelude.{
  ℕ, suc, ◌+◌, ◌-◌, ◌*◌, Bool, true, false, not, ◌&&◌, Option, none, some, List, [], ◌∷◌, ℤ, pos,
  ◌+ℤ◌, abs, leb, ltb, ◌==◌, if◌then◌else◌,
}
use cardgames.Store.{
  Store, Wallet, Transaction, Reference, Result, ok, err, Error, ◌>>=◌, or_throw, wallet_not_found,
  unique_violation, missing_relation, buy_in, cash_out, completed, is_completed,
  ghost_reconciliation, auto_reconciliation_refund, type_index, same_key, find_wallet,
  find_wallet_of, create_transaction,
}
use cardgames.Store.Table.{find}
use cardgames.Wallet.Base.{set_balance}

pub record Orphan : Type 0 where
  pub id : ℕ
  pub user_id : ℕ
  pub amount : ℤ
  pub reference : Option Reference

-- `SELECT 1 FROM "Transaction" co WHERE ...`
abbrev pub answers : Option Reference → Transaction → Bool
answers reference co =
    same_key reference co.reference_id
    && (type_index cash_out == type_index co.type && is_completed co.status)

abbrev pub is_none {ℓ} : {A : Type ℓ} → Option A → Bool
is_none none = true
is_none (some a) = false

-- The conditions of the query on one row.
abbrev pub is_stale : (ℕ → ℕ) → ℕ → List Transaction → Transaction → Bool
is_stale created_at cutoff ts t =
    type_index t.type == type_index buy_in
    && is_completed t.status
    && not (is_none t.reference_id)
    && ltb (created_at t.id) cutoff
    && is_none (find (answers t.reference_id) ts)

abbrev pub orphan_of : Transaction → ℕ → Orphan
orphan_of t user = record {
  id = t.id;
  user_id = user;
  amount = t.amount;
  reference = t.reference_id;
}

-- The stale rows with the users of their wallets.
unfoldable pub stale_rows : (ℕ → ℕ) → ℕ → Store → List Transaction → List Orphan
stale_rows created_at cutoff s [] = []
stale_rows created_at cutoff s (t ∷ ts) =
    let rest = stale_rows created_at cutoff s ts in
    elim (find_wallet t.wallet_id s) [
      | none ↦ rest
      | some w ↦
          if is_stale created_at cutoff s.transactions t then orphan_of t w.user_id ∷ rest else rest
    ]

-- `ORDER BY t."createdAt" ASC`
unfoldable pub insert_by : (ℕ → ℕ) → Orphan → List Orphan → List Orphan
insert_by created_at o [] = o ∷ []
insert_by created_at o (p ∷ ps) =
    if leb (created_at o.id) (created_at p.id) then o ∷ p ∷ ps else p ∷ insert_by created_at o ps

unfoldable pub order_by : (ℕ → ℕ) → List Orphan → List Orphan
unfolding insert_by
order_by created_at [] = []
order_by created_at (o ∷ os) = insert_by created_at o (order_by created_at os)

abbrev pub has : ℕ → List ℕ → Bool
has user ids = not (is_none (find (λ id. id == user) ids))

-- The orphans whose users are not seated.
unfoldable pub without_seated : List ℕ → List Orphan → List Orphan
without_seated seated [] = []
without_seated seated (o ∷ os) =
    let rest = without_seated seated os in if has o.user_id seated then rest else o ∷ rest

unfoldable pub find_orphaned_transactions : (ℕ → ℕ) → List ℕ → ℕ → Store → List Orphan
unfolding stale_rows order_by without_seated
find_orphaned_transactions created_at seated now s =
    let cutoff = now - 2 * 60 * 60 * 1000 in
    without_seated seated (order_by created_at (stale_rows created_at cutoff s s.transactions))

-- The audit row of a refund, whose user must be there.
unfoldable pub log_refund : Option ℕ → Orphan → Transaction × Store → Result (Transaction × Store)
log_refund none orphan (t, created) = err missing_relation
log_refund (some system_id) orphan (t, created) = ok (
  t,
  record created {
    audits =
        record {
          user_id = system_id;
          action = auto_reconciliation_refund;
          transaction_id = orphan.id;
          amount = abs orphan.amount;
        }
        ∷ created.audits;
  },
)

-- The cash-out that answers the buy-in.
abbrev pub refund_row : Wallet → Orphan → ℕ → Transaction
refund_row w orphan new_id = record {
  id = new_id;
  wallet_id = w.id;
  type = cash_out;
  amount = abs orphan.amount;
  status = completed;
  description = ghost_reconciliation orphan.id;
  balance_before = some w.real_balance;
  balance_after = some (w.real_balance +ℤ abs orphan.amount);
  reference_id = orphan.reference;
  rejection_reason = none;
  processed_by_id = none;
  performed_by_id = none;
}

-- The transaction of one refund.
unfoldable pub refund_orphan : Option ℕ → Orphan → ℕ → Store → Result (Transaction × Store)
unfolding log_refund
refund_orphan system orphan new_id s = do
  w ← or_throw (find_wallet_of orphan.user_id s) wallet_not_found
  let balance_after = w.real_balance +ℤ abs orphan.amount
  created ←
      create_transaction (refund_row w orphan new_id) (set_balance w.id (λ _. balance_after) s)
  log_refund system orphan created

pub record Sweep : Type 0 where
  pub store : Store
  pub refunded_count : ℕ
  pub total_refunded : ℤ
  pub error_count : ℕ

-- A violated constraint means that the refund was there already.
abbrev pub count_error : Error → ℕ → ℕ
count_error unique_violation n = n
count_error _ n = n + 1

-- What the loop notes of one refund.
abbrev pub note_refund : Orphan → Result (Transaction × Store) → Sweep → Sweep
note_refund o (ok (t, s)) w = record w {
  store = s;
  refunded_count = w.refunded_count + 1;
  total_refunded = w.total_refunded +ℤ abs o.amount;
}
note_refund o (err e) w = record w { error_count = count_error e w.error_count }

-- The loop. The ids of the new rows count up from the one given.
unfoldable pub refund_all : Option ℕ → ℕ → List Orphan → Sweep → Sweep
refund_all system new_id [] w = w
refund_all system new_id (o ∷ os) w =
    refund_all system (suc new_id) os (note_refund o (refund_orphan system o new_id w.store) w)

abbrev pub start_sweep : Store → Sweep
start_sweep s = record { store = s; refunded_count = 0; total_refunded = pos 0; error_count = 0 }

-- The sweep, and the count and the sum that the alert prints, if one is published.
unfoldable pub auto_resolve_ghost_money :
    Option ℕ → (ℕ → ℕ) → List ℕ → ℕ → ℕ → Store → Sweep × Option (ℕ × ℤ)
unfolding find_orphaned_transactions refund_all
auto_resolve_ghost_money system created_at seated now new_id s =
    let orphans = find_orphaned_transactions created_at seated now s in
    let w = refund_all system new_id orphans (start_sweep s) in
    (
      w,
      if ltb 0 w.refunded_count && s.redis_up
          then some (w.refunded_count, w.total_refunded)
          else none,
    )
