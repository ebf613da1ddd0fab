-- ===== src/Wallet/Effects.antt =====
-- What a call that succeeds does to the wallets: the balance of the caller, the figures in the
-- ledger row, and the other wallets.
use cardgames.Prelude.{
  ℕ, ◌≡◌, ◌≢◌, refl, ◌∙◌, true, false, ◌&&◌, Option, none, some, ◌∷◌, arith, ℤ, ◌+ℤ◌, ◌-ℤ◌, ◌≤ℤ◌,
  ltb_ℤ, leb_ℤ, neg, int_laws, ◌==◌, ==_refl,
}
use Prim.Native.String.{String}
use cardgames.Store.{
  Store, Wallet, Transaction, TransactionType, Reference, pending, withdraw, commit, find_wallet,
  find_wallet_of, find_transaction, create_transaction, ok, clashes, same_key, type_index,
  wallet_withdraw,
}
use cardgames.Store.Table.{find, update, find-update_self, find-update_ne, find-none_or, find_never}
use cardgames.Wallet.Base.{record_audit, push_balance_update}
use cardgames.Wallet.Requests.{create_withdrawal_request, withdrawal_text}
use cardgames.Wallet.Ledger.{IsSound}
use cardgames.Wallet.Posting.{
  take_if_covered_lem, find_own, find_wallet-push, find_transaction-push,
}

-- No row has this id, and none of this type has this reference.
abbrev pub IsNew : ℕ → TransactionType → Option Reference → Store → Type 0
IsNew new_id type reference s =
    (find (λ t. t.id == new_id) s.transactions ≡ none)
    × (find (λ t. same_key reference t.reference_id && type_index type == type_index t.type)
          s.transactions
        ≡ none)

pub create_transaction-IsNew :
    (row : Transaction) (s : Store)
    → IsNew row.id row.type row.reference_id s
    → create_transaction row s ≡ ok (row, record s { transactions = row ∷ s.transactions })
unfolding create_transaction clashes
create_transaction-IsNew row s new = rw (
  find-none_or (λ (t : Transaction). t.id == row.id) _ (clashes row) s.transactions
      (λ t. ground arith) new.0 new.1,
  create_transaction,
)

-- The store with one balance lowered.
abbrev pub paid : Wallet → ℤ → Store → Store
paid w amount s = record s {
  wallets =
      update (λ v. v.id == w.id) (λ v. record v { real_balance = v.real_balance -ℤ amount })
        s.wallets;
}

pub find_wallet-paid :
    (w : Wallet) (amount : ℤ) (s : Store)
    → find (λ v. v.id == w.id) s.wallets ≡ some w
    → find_wallet w.id (paid w amount s)
      ≡ some (record w { real_balance = w.real_balance -ℤ amount })
unfolding find_wallet
find_wallet-paid w amount s e = find-update_self (λ v. v.id) w.id _ s.wallets w (λ v. refl) e

pub add_back : (b a : ℤ) → b -ℤ a +ℤ a ≡ b
add_back b a = omega int_laws

-- The row of an accepted withdrawal request.
abbrev pub withdrawal_row : Wallet → ℤ → Option String → Option String → ℕ → Transaction
withdrawal_row w amount comment bank new_id = record {
  id = new_id;
  wallet_id = w.id;
  type = withdraw;
  amount = neg amount;
  status = pending;
  description = withdrawal_text comment bank;
  balance_before = some w.real_balance;
  balance_after = some (w.real_balance -ℤ amount);
  reference_id = none;
  rejection_reason = none;
  processed_by_id = none;
  performed_by_id = none;
}

module _ (user : ℕ) (amount : ℤ) (comment bank : Option String) (new_id : ℕ) (s : Store)
    (w : Wallet) (h : IsSound s) (e : find_wallet_of user s ≡ some w)
    (enough : amount ≤ℤ w.real_balance)
    (new : find (λ t. t.id == new_id) s.transactions ≡ none) where
  pub withdrawal_done :
      let row = withdrawal_row w amount comment bank new_id in
      create_withdrawal_request user amount comment bank new_id s
      ≡ ok (
        row,
        push_balance_update user w.id (neg amount) withdraw (
            record_audit user wallet_withdraw row
              (record (paid w amount s) { transactions = row ∷ s.transactions })),
      )
  unfolding create_withdrawal_request
  withdrawal_done =
      rw (e, not_short, take_if_covered_lem user w amount s h e, is_covered)
        (rw
          (
            find_wallet-paid w amount s (find_own user s w h e),
            add_back w.real_balance amount,
            create_transaction-IsNew (withdrawal_row w amount comment bank new_id) (paid w amount s)
                (new, find_never _ s.transactions (λ t. refl)),
          )
          refl)
    where
      not_short : ltb_ℤ w.real_balance amount ≡ false
      not_short = ground arith

      is_covered : leb_ℤ amount w.real_balance ≡ true
      is_covered = ground arith

  find_wallet-done :
      (j : ℕ)
      → find_wallet j (commit s (create_withdrawal_request user amount comment bank new_id s))
        ≡ find_wallet j (paid w amount s)
  find_wallet-done j =
      rw (withdrawal_done, find_wallet-push) (unfold find_wallet record_audit in refl)

  find_transaction-done :
      find_transaction new_id
        (commit s (create_withdrawal_request user amount comment bank new_id s))
      ≡ some (withdrawal_row w amount comment bank new_id)
  unfolding record_audit
  find_transaction-done =
      rw (withdrawal_done, find_transaction-push)
        (unfold find_transaction find in rw (==_refl new_id))

  -- In a sound store, a withdrawal request of a user with a wallet that covers the amount, under a
  -- new row id, takes the amount from that wallet at once, leaves every other wallet as it was,
  -- and stores a pending row with the balance before and after.
  pub create_withdrawal_request-covered :
      let s' = commit s (create_withdrawal_request user amount comment bank new_id s) in
      (find_wallet w.id s' ≡ some (record w { real_balance = w.real_balance -ℤ amount }))
      × ((j : ℕ) → j ≢ w.id → find_wallet j s' ≡ find_wallet j s)
      × (find_transaction new_id s' ≡ some (withdrawal_row w amount comment bank new_id))
  create_withdrawal_request-covered = (
    find_wallet-done w.id ∙ find_wallet-paid w amount s (find_own user s w h e),
    λ j ne.
        find_wallet-done j
        ∙ unfold find_wallet in find-update_ne (λ v. v.id) w.id j _ s.wallets (λ v. refl) ne,
    find_transaction-done,
  )
