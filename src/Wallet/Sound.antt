-- ===== src/Wallet/Sound.antt =====
-- Every operation keeps the invariant of wallets and ledger.
use cardgames.Prelude.{
  ℕ, ◌≡◌, refl, sym, ap, inl, inr, Bool, true, false, Option, arith, ℤ, pos, ◌+ℤ◌, ◌-ℤ◌, leb_ℤ,
  ltb_ℤ, int_laws, is_zero, Bool-cases, Option-cases, if◌then◌else◌,
}
use Prim.Native.String.{String}
use cardgames.Store.{Store, Reference, commit, find_wallet_of, admin_debit, admin_credit, completed}
use cardgames.Wallet.Base.{record_audit, set_balance}
use cardgames.Wallet.Requests.{create_withdrawal_request, create_deposit_request, lock_funds}
use cardgames.Wallet.Admin.{admin_adjust_balance}
use cardgames.Wallet.CashOut.{settle_cash_out}
use cardgames.Wallet.Posting.{
  post-AreSound, record-AreSound, commit-create, commit-create_last, push_balance_update-IsSound,
  find_own, take_if_covered_lem,
}
use cardgames.Wallet.Ledger.{settled, IsSound}

-- A deposit request leaves a sound store sound, whether it is accepted or refused: ids stay
-- unique, and every balance the sum of what its ledger rows have moved.
pub create_deposit_request-IsSound :
    (user : ℕ) (amount : Option ℤ) (method : Option String) (new_id : ℕ) (s : Store)
    → IsSound s
    → IsSound (commit s (create_deposit_request user amount method new_id s))
unfolding create_deposit_request
create_deposit_request-IsSound user amount method new_id s h =
    elim (Option-cases (find_wallet_of user s)) [
      | inl e ↦ rw e h
      | inr (w, e) ↦ rw e (
          commit-create_last s s _ h
            λ fresh. record-AreSound s.wallets s.transactions h _ fresh refl)
    ]

covered : (b a : ℤ) → ltb_ℤ b a ≡ false → leb_ℤ a b ≡ true
covered b a c = ground arith

-- A withdrawal request leaves a sound store sound (row and wallet ids are unique, and every
-- balance is the sum of what its ledger rows have moved), whether it is accepted or refused.
pub create_withdrawal_request-IsSound :
    (user : ℕ) (amount : ℤ) (comment bank : Option String) (new_id : ℕ) (s : Store)
    → IsSound s
    → IsSound (commit s (create_withdrawal_request user amount comment bank new_id s))
unfolding create_withdrawal_request record_audit
create_withdrawal_request-IsSound user amount comment bank new_id s h =
    elim (Option-cases (find_wallet_of user s)) [
      | inl e ↦ rw e h
      | inr (w, e) ↦ elim (Bool-cases (ltb_ℤ w.real_balance amount)) [
        | inl short ↦ rw (e, short) h
        | inr enough ↦
            rw
              (
                e,
                enough,
                take_if_covered_lem user w amount s h e,
                covered w.real_balance amount enough,
              )
              (commit-create s _ _ _ h λ fresh. push_balance_update-IsSound _ _ _ _ _ (
                post-AreSound s.wallets s.transactions h w (λ b. b -ℤ amount) _
                  (find_own user s w h e) refl fresh (omega int_laws)))
      ]
    ]

-- A buy-in leaves a sound store sound, whether it is accepted or refused: ids stay unique, and
-- every balance the sum of what its ledger rows have moved.
pub lock_funds-IsSound :
    (user : ℕ) (amount : ℤ) (table_id : ℕ) (table_text : String) (now new_id : ℕ) (s : Store)
    → IsSound s
    → IsSound (commit s (lock_funds user amount table_id table_text now new_id s))
unfolding lock_funds record_audit
lock_funds-IsSound user amount table_id table_text now new_id s h =
    elim (Option-cases (find_wallet_of user s)) [
      | inl e ↦ rw e h
      | inr (w, e) ↦ elim (Bool-cases (ltb_ℤ w.real_balance amount)) [
        | inl short ↦ rw (e, short) h
        | inr enough ↦
            rw
              (
                e,
                enough,
                take_if_covered_lem user w amount s h e,
                covered w.real_balance amount enough,
              )
              (commit-create s _ _ _ h λ fresh. push_balance_update-IsSound _ _ _ _ _ (
                post-AreSound s.wallets s.transactions h w (λ b. b -ℤ amount) _
                  (find_own user s w h e) refl fresh (omega int_laws)))
      ]
    ]

adjusted : (b : Bool) (a : ℤ) → settled (if b then admin_debit else admin_credit) completed a ≡ a
adjusted true a = refl
adjusted false a = refl

-- An administrator's adjustment leaves a sound store sound, whether it is accepted or refused: ids
-- stay unique, and every balance the sum of what its ledger rows have moved.
pub admin_adjust_balance-IsSound :
    (user : ℕ) (amount : ℤ) (reason kind : String) (admin new_id : ℕ) (s : Store)
    → IsSound s
    → IsSound (commit s (admin_adjust_balance user amount reason kind admin new_id s))
unfolding admin_adjust_balance record_audit set_balance
admin_adjust_balance-IsSound user amount reason kind admin new_id s h =
    elim (Option-cases (find_wallet_of user s)) [
      | inl e ↦ rw e h
      | inr (w, e) ↦ elim (Bool-cases (is_zero amount)) [
        | inl nothing ↦ rw (e, nothing) h
        | inr something ↦ elim (Bool-cases (ltb_ℤ (w.real_balance +ℤ amount) (pos 0))) [
          | inl below ↦ rw (e, something, below) h
          | inr above ↦
              rw (e, something, above)
                (commit-create s _ _ _ h λ fresh. push_balance_update-IsSound _ _ _ _ _ (
                  post-AreSound s.wallets s.transactions h w (λ _. w.real_balance +ℤ amount) _
                    (find_own user s w h e) refl fresh
                    (ap (◌+ℤ◌ w.real_balance) (sym (adjusted (ltb_ℤ amount (pos 0)) amount)))))
        ]
      ]
    ]

-- A cash-out leaves a sound store sound, whether it settles or changes nothing: ids stay unique,
-- and every balance the sum of what its ledger rows have moved.
pub settle_cash_out-IsSound :
    (user : ℕ) (amount : ℤ) (table_id : ℕ) (table_text : String) (reference : Option Reference)
    (new_id : ℕ) (s : Store)
    → IsSound s
    → IsSound (settle_cash_out user amount table_id table_text reference new_id s)
unfolding settle_cash_out set_balance
settle_cash_out-IsSound user amount table_id table_text reference new_id s h =
    elim (Bool-cases (leb_ℤ amount (pos 0))) [
      | inl nothing ↦ rw nothing h
      | inr something ↦ elim (Option-cases (find_wallet_of user s)) [
        | inl e ↦ rw (something, e) h
        | inr (w, e) ↦
            rw (something, e)
              (commit-create s _ _ _ h λ fresh. push_balance_update-IsSound _ _ _ _ _ (
                post-AreSound s.wallets s.transactions h w (λ _. w.real_balance +ℤ amount) _
                  (find_own user s w h e) refl fresh refl))
      ]
    ]
