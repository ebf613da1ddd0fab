-- ===== src/Rebuy/Paid.antt =====
-- The money of a rebuy.
use cardgames.Prelude.{ℕ, ◌≡◌, ◌≢◌, ◌∙◌, ap, none, some, ℤ, pos, ◌+ℤ◌, ◌-ℤ◌, ◌≤ℤ◌, ◌<ℤ◌, int_laws}
use Prim.Native.String.{String}
use cardgames.Store.{Store, Wallet, buy_in, cash_out, session, find_wallet, find_wallet_of}
use cardgames.Wallet.Ledger.{IsSound}
use cardgames.Wallet.Effects.{IsNew}
use cardgames.Wallet.Posting.{find_own}
use cardgames.Wallet.Session.{settle_cash_out-credits}
use cardgames.Wallet.Sound.{lock_funds-IsSound}
use cardgames.Wallet.RoundTrip.{lock_done, seated, seated-wallet, seated-IsNew}
use cardgames.Rebuy.Defs.{Reply, thrown, rejected, accepted, after_reply, rebuy}

-- The balance after a rebuy, by what the script answered: the amount is paid if the chips were given,
-- returned if they were refused, and gone if the script threw.
abbrev pub balance_by : Reply → ℤ → ℤ → ℤ
balance_by thrown b a = b -ℤ a
balance_by rejected b a = b
balance_by (accepted st) b a = b -ℤ a

module _ {T : Type 0} (add_chips_vault : ℕ → ℕ → ℤ → T → Reply × T) (seat user table_id : ℕ)
    (table_text : String) (amount : ℤ) (now new_id refund_id : ℕ) (s : Store) (t : T) (w : Wallet)
    (h : IsSound s) (e : find_wallet_of user s ≡ some w) (enough : amount ≤ℤ w.real_balance)
    (new : IsNew new_id buy_in (some (session table_id now)) s)
    (refund_new : IsNew refund_id cash_out none s) (apart : refund_id ≢ new_id)
    (positive : pos 0 <ℤ amount) where
  paid : Store
  paid = seated user amount table_id table_text now new_id s w h e enough new

  paid-IsSound : IsSound paid
  unfolding paid seated
  paid-IsSound = lock_funds-IsSound user amount table_id table_text now new_id s h

  paid-owner :
      find_wallet_of user paid ≡ some (record w { real_balance = w.real_balance -ℤ amount })
  unfolding paid
  paid-owner = seated-wallet user amount table_id table_text now new_id s w h e enough new

  paid-wallet : find_wallet w.id paid ≡ some (record w { real_balance = w.real_balance -ℤ amount })
  unfolding find_wallet
  paid-wallet = find_own user paid _ paid-IsSound paid-owner

  refund-IsNew : IsNew refund_id cash_out none paid
  unfolding paid
  refund-IsNew =
      seated-IsNew user amount table_id table_text now new_id s w h e enough new refund_id none
        apart refund_new

  back : w.real_balance -ℤ amount +ℤ amount ≡ w.real_balance
  back = omega int_laws

  by_reply :
      (r : Reply × T)
      → find_wallet w.id
          (after_reply add_chips_vault user amount table_id table_text refund_id paid r).store
        ≡ some (record w { real_balance = balance_by r.0 w.real_balance amount })
  by_reply (thrown, u) = paid-wallet
  by_reply (rejected, u) =
      settle_cash_out-credits user amount table_id table_text none refund_id paid _ paid-IsSound
        paid-owner positive refund-IsNew
      ∙ ap (λ (b : ℤ). some (record w { real_balance = b })) back
  by_reply (accepted st, u) = paid-wallet

  -- A rebuy by what the script answers: in a sound store, a player with a session whose wallet covers
  -- a positive amount pays it if the table takes the chips, gets it back if the table refuses them,
  -- and loses it if the script throws. The payment and its refund have new row ids, and the
  -- payment a new reference.
  pub rebuy-wallet :
      find_wallet w.id
        (rebuy add_chips_vault
          (some seat)
          user
          table_id
          table_text
          amount
          now
          new_id
          refund_id
          s
          t).store
      ≡ some (record w {
        real_balance = balance_by (add_chips_vault table_id seat amount t).0 w.real_balance amount;
      })
  unfolding rebuy paid seated
  rebuy-wallet =
      let done = lock_done user amount table_id table_text now new_id s w h e enough new in
      rw (rebuy, done) (rw done at (by_reply (add_chips_vault table_id seat amount t)))
