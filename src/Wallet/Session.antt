-- ===== src/Wallet/Session.antt =====
-- A table session: `lockFunds` at the buy-in and `settleCashOut` at the end
-- (apps/api/src/wallet/wallet.service.ts), linked by the session's reference.
use cardgames.Prelude.{
  ℕ, ◌≡◌, refl, inl, inr, Bool, true, false, ◌&&◌, Option, none, some, ◌∷◌, arith, ℤ, pos, ◌+ℤ◌,
  ◌<ℤ◌, leb_ℤ, ◌==◌, ==_refl, Bool-cases, Option-cases,
}
use Prim.Native.String.{String}
use cardgames.Store.{
  Store, Wallet, Transaction, TransactionType, Reference, Result, cash_out, commit, find_wallet,
  find_wallet_of, create_transaction, err, ◌>>=◌, unique_violation, clashes, same_key,
  same_reference, type_index, session, tournament_entry, tournament_exit, completed, cash_out_from,
}
use cardgames.Store.Table.{find, find-some_weaken}
use cardgames.Wallet.Base.{set_balance, push_balance_update, table_name}
use cardgames.Wallet.CashOut.{settle_cash_out}
use cardgames.Wallet.Ledger.{IsSound}
use cardgames.Wallet.Posting.{
  transactions-push, find_wallet-push, find_wallet-set_balance, find_own,
}
use cardgames.Wallet.Effects.{IsNew, create_transaction-IsNew}

-- A ledger row of this type and reference.
abbrev pub is_row_of : TransactionType → Option Reference → Transaction → Bool
is_row_of type reference t =
    same_key reference t.reference_id && type_index type == type_index t.type

create_transaction-clash :
    (row old : Transaction) (s : Store)
    → find (is_row_of row.type row.reference_id) s.transactions ≡ some old
    → create_transaction row s ≡ err unique_violation
unfolding create_transaction clashes
create_transaction-clash row old s e =
    let (z, f) =
      find-some_weaken (is_row_of row.type row.reference_id) (clashes row) s.transactions old
        (λ t h. ground arith) e in
    rw (f, create_transaction)

commit-clash :
    (s base : Store) (row old : Transaction)
    (k : Transaction × Store → Result (Transaction × Store))
    → find (is_row_of row.type row.reference_id) base.transactions ≡ some old
    → commit s (create_transaction row base >>= k) ≡ s
commit-clash s base row old k e = rw (create_transaction-clash row old base e)

-- Once the ledger holds a cash-out with a session's reference, every further settlement with that
-- reference, of any user, amount and row id, changes nothing at all.
pub settle_cash_out-repeated :
    (user : ℕ) (amount : ℤ) (table_id : ℕ) (table_text : String) (reference : Option Reference)
    (new_id : ℕ) (s : Store) (old : Transaction)
    → find (is_row_of cash_out reference) s.transactions ≡ some old
    → settle_cash_out user amount table_id table_text reference new_id s ≡ s
unfolding settle_cash_out set_balance
settle_cash_out-repeated user amount table_id table_text reference new_id s old e =
    elim (Bool-cases (leb_ℤ amount (pos 0))) [
      | inl nothing ↦ rw nothing
      | inr something ↦ elim (Option-cases (find_wallet_of user s)) [
        | inl no_wallet ↦ rw (something, no_wallet)
        | inr (w, found) ↦ rw (something, found) (commit-clash s _ _ old _ e)
      ]
    ]

same_reference_refl : (r : Reference) → same_reference r r ≡ true
same_reference_refl (session a t) = rw (==_refl a, ==_refl t)
same_reference_refl (tournament_entry a t) = rw (==_refl a, ==_refl t)
same_reference_refl (tournament_exit a t) = rw (==_refl a, ==_refl t)

-- A settlement that is new credits the wallet of the user and leaves its row in the ledger.
module _ (user : ℕ) (amount : ℤ) (table_id : ℕ) (table_text : String) (reference : Option Reference)
    (new_id : ℕ) (s : Store) (w : Wallet) (h : IsSound s) (e : find_wallet_of user s ≡ some w)
    (positive : pos 0 <ℤ amount) (new : IsNew new_id cash_out reference s) where
  unfoldable pub cash_out_row : Transaction
  cash_out_row = record {
    id = new_id;
    wallet_id = w.id;
    type = cash_out;
    amount = amount;
    status = completed;
    description =
        cash_out_from
          (table_name table_id table_text (set_balance w.id (λ _. w.real_balance +ℤ amount) s));
    balance_before = some w.real_balance;
    balance_after = some (w.real_balance +ℤ amount);
    reference_id = reference;
    rejection_reason = none;
    processed_by_id = none;
    performed_by_id = none;
  }

  pub settle_done :
      settle_cash_out user amount table_id table_text reference new_id s
      ≡ push_balance_update user w.id amount cash_out
          (record (set_balance w.id (λ _. w.real_balance +ℤ amount) s) {
            transactions = cash_out_row ∷ s.transactions;
          })
  unfolding settle_cash_out cash_out_row set_balance
  settle_done =
      rw (is_positive, e)
        (rw (
          create_transaction-IsNew cash_out_row (set_balance w.id (λ _. w.real_balance +ℤ amount) s)
            new))
    where
      is_positive : leb_ℤ amount (pos 0) ≡ false
      is_positive = ground arith

  -- In a sound store, a settlement of a positive amount for a user with a wallet, new in its
  -- reference and its row id, credits the user's wallet with exactly that amount.
  pub settle_cash_out-credits :
      find_wallet w.id (settle_cash_out user amount table_id table_text reference new_id s)
      ≡ some (record w { real_balance = w.real_balance +ℤ amount })
  settle_cash_out-credits =
      rw (settle_done, find_wallet-push)
        (unfold find_wallet in
          find_wallet-set_balance w.id (λ _. w.real_balance +ℤ amount) s w (find_own user s w h e))

  settle-row :
      (r : Reference)
      → reference ≡ some r
      → find
          (is_row_of cash_out reference)
          (settle_cash_out user amount table_id table_text reference new_id s).transactions
        ≡ some cash_out_row
  unfolding cash_out_row
  settle-row r named =
      rw (settle_done, transactions-push) (unfold find in rw (named, same_reference_refl r))

-- A session is settled once: in a sound store, after a settlement of a positive amount for a user
-- with a wallet, new in its reference and its row id, a second one with the same reference, of any
-- user, amount and row id, leaves the store as the first left it.
pub settle_cash_out-once :
    (user : ℕ) (amount : ℤ) (table_id : ℕ) (table_text : String) (r : Reference) (new_id : ℕ)
    (s : Store) (w : Wallet) (user' : ℕ) (amount' : ℤ) (table_id' : ℕ) (table_text' : String)
    (new_id' : ℕ)
    → IsSound s
    → find_wallet_of user s ≡ some w
    → pos 0 <ℤ amount
    → IsNew new_id cash_out (some r) s
    → let settled = settle_cash_out user amount table_id table_text (some r) new_id s in
      settle_cash_out user' amount' table_id' table_text' (some r) new_id' settled ≡ settled
settle_cash_out-once user amount table_id table_text r new_id s w user' amount' table_id'
      table_text' new_id' h e positive new =
    settle_cash_out-repeated user' amount' table_id' table_text' (some r) new_id' _ _
      (settle-row user amount table_id table_text (some r) new_id s w h e positive new r refl)
