-- ===== src/Healer/Unshielded.antt =====
-- A refund of a buy-in that was cashed out.
use cardgames.Prelude.{
  ℕ, ◌≡◌, ◌≢◌, refl, true, false, Option, none, some, List, ◌∷◌, arith, subst, ℤ, pos, ◌+ℤ◌, ◌<ℤ◌,
  abs, ◌==◌,
}
use Prim.Native.String.{String}
use mathlib.Core.List.{Memᴰ}
use cardgames.Store.{
  Store, Wallet, Transaction, Reference, cash_out, commit, find_wallet, find_wallet_of, same_key,
}
use cardgames.Store.Table.{find, find-update_found, find-update_self}
use cardgames.Wallet.Base.{set_balance}
use cardgames.Wallet.CashOut.{settle_cash_out}
use cardgames.Wallet.Ledger.{IsSound}
use cardgames.Wallet.Posting.{find_own, wallets-push, transactions-push}
use cardgames.Wallet.Effects.{IsNew, create_transaction-IsNew}
use cardgames.Wallet.Session.{cash_out_row, settle_done}
use cardgames.Wallet.Sound.{settle_cash_out-IsSound}
use cardgames.Settlement.Credits.{owner}
use cardgames.Healer.Defs.{
  Orphan, is_stale, orphan_of, has, find_orphaned_transactions, refund_row, log_refund,
  refund_orphan,
}
use cardgames.Healer.Listed.{cutoff_at, orphan-listed}

-- A refund that is new credits the user's wallet.
refund_orphan-credits :
    (admin : ℕ) (o : Orphan) (new_id : ℕ) (s : Store) (w : Wallet)
    → IsSound s
    → find_wallet_of o.user_id s ≡ some w
    → IsNew new_id cash_out o.reference s
    → find_wallet w.id (commit s (refund_orphan (some admin) o new_id s))
      ≡ some (record w { real_balance = w.real_balance +ℤ abs o.amount })
unfolding refund_orphan log_refund set_balance
refund_orphan-credits admin o new_id s w h e new =
    rw
      (
        e,
        create_transaction-IsNew (refund_row w o new_id)
            (set_balance w.id (λ _. w.real_balance +ℤ abs o.amount) s) new,
      )
      (unfold find_wallet in
        find-update_self (λ v. v.id) w.id _ s.wallets w (λ v. refl) (find_own o.user_id s w h e))

same_key-none : (r : Option Reference) → same_key r none ≡ false
same_key-none none = refl
same_key-none (some r) = refl

module _ (created_at : ℕ → ℕ) (now admin user : ℕ) (chips : ℤ) (table_id : ℕ) (table_text : String)
    (cash_id new_id : ℕ) (s : Store) (w : Wallet) (t : Transaction) (h : IsSound s)
    (e : find_wallet_of user s ≡ some w) (positive : pos 0 <ℤ chips)
    (cash_new : IsNew cash_id cash_out none s) where
  left : Store
  left = settle_cash_out user chips table_id table_text none cash_id s

  left_row : Transaction
  left_row = cash_out_row user chips table_id table_text none cash_id s w h e positive cash_new

  left-transactions : left.transactions ≡ left_row ∷ s.transactions
  unfolding left left_row
  left-transactions =
      rw
        (
          settle_done user chips table_id table_text none cash_id s w h e positive cash_new,
          transactions-push,
        )
        refl

  left-wallet :
      find_wallet_of user left ≡ some (record w { real_balance = w.real_balance +ℤ chips })
  unfolding left find_wallet_of set_balance
  left-wallet =
      rw
        (
          settle_done user chips table_id table_text none cash_id s w h e positive cash_new,
          wallets-push,
        )
        (find-update_found (λ v. v.id) _ _ s.wallets w h.unique_wallets (λ v. refl) e)

  still_stale :
      is_stale created_at (cutoff_at now) s.transactions t ≡ true
      → is_stale created_at (cutoff_at now) left.transactions t ≡ true
  still_stale stale =
      rw left-transactions
        (unfold find left_row cash_out_row in rw (same_key-none t.reference_id) stale)

  left-IsNew :
      IsNew new_id cash_out t.reference_id s
      → new_id ≢ cash_id
      → IsNew new_id cash_out t.reference_id left
  left-IsNew new ne = rw left-transactions (
      unfold find left_row cash_out_row in
      (rw differ new.0, rw (same_key-none t.reference_id) new.1))
    where
      differ : (cash_id == new_id) ≡ false
      differ = ground arith

  listed_as : orphan_of t w.user_id ≡ orphan_of t user
  listed_as = rw (owner user s w e) refl

  -- A buy-in is paid back twice: in a sound store, a user whom Redis does not seat gets a positive
  -- number of chips back by a settlement without a reference, under a new row id, as the refund of a
  -- rebuy settles. A completed buy-in of the user that is old, has a reference and no cash-out with
  -- it is on the list of the sweep before the settlement and after it as well. Where the user SYSTEM
  -- of the audit row exists, its refund, under a second new row id and a new pair of reference and
  -- type, adds the buy-in to the chips that were paid.
  pub refund_orphan-settle_cash_out :
      (seated : List ℕ)
      → IsNew new_id cash_out t.reference_id s
      → new_id ≢ cash_id
      → t.wallet_id ≡ w.id
      → Memᴰ t s.transactions
      → is_stale created_at (cutoff_at now) s.transactions t ≡ true
      → has user seated ≡ false
      → let left = settle_cash_out user chips table_id table_text none cash_id s in
        Memᴰ (orphan_of t user) (find_orphaned_transactions created_at seated now s)
        × Memᴰ (orphan_of t user) (find_orphaned_transactions created_at seated now left)
        × (find_wallet w.id
              (commit left (refund_orphan (some admin) (orphan_of t user) new_id left))
            ≡ some (record w { real_balance = w.real_balance +ℤ chips +ℤ abs t.amount }))
  unfolding left
  refund_orphan-settle_cash_out seated new ne own stored stale away =
      let away' : has w.user_id seated ≡ false = rw (owner user s w e) away in
      let sound = settle_cash_out-IsSound user chips table_id table_text none cash_id s h in
      let list = λ (r : Store). find_orphaned_transactions created_at seated now r in
      (
        subst (λ o. Memᴰ o (list s)) listed_as
            (orphan-listed created_at seated now s t w (wallet_at s w h e own) stored stale away'),
        subst (λ o. Memᴰ o (list left)) listed_as
            (orphan-listed created_at seated now left t
              (record w { real_balance = w.real_balance +ℤ chips })
              (wallet_at left _ sound left-wallet own) (rw left-transactions (Memᴰ.tail stored))
              (still_stale stale) away'),
        refund_orphan-credits admin (orphan_of t user) new_id left _ sound left-wallet
            (left-IsNew new ne),
      )
    where
      wallet_at :
          (r : Store) (v : Wallet)
          → IsSound r
          → find_wallet_of user r ≡ some v
          → t.wallet_id ≡ v.id
          → find_wallet t.wallet_id r ≡ some v
      wallet_at r v sound found own = rw own (unfold find_wallet in find_own user r v sound found)
