-- ===== src/Wallet/Refund.antt =====
-- A withdrawal request and its rejection, one after the other.
use cardgames.Prelude.{
  ℕ, ◌≡◌, refl, Option, none, some, ℤ, ◌-ℤ◌, ◌≤ℤ◌, ◌+ℤ◌, neg, int_laws, ◌==◌, ap, ◌∙◌,
}
use Prim.Native.String.{String}
use cardgames.Store.{Store, Wallet, commit, find_wallet, find_wallet_of, rejected}
use cardgames.Store.Table.{find}
use cardgames.Wallet.Requests.{create_withdrawal_request}
use cardgames.Wallet.Admin.{admin_process_transaction}
use cardgames.Wallet.Ledger.{IsSound}
use cardgames.Wallet.Effects.{create_withdrawal_request-covered, withdrawal_row}
use cardgames.Wallet.Process.{reject_withdrawal-charges}

take_twice : (b a : ℤ) → b -ℤ a +ℤ neg a ≡ b -ℤ a -ℤ a
take_twice b a = omega int_laws

-- A rejected withdrawal is charged twice: in a sound store, a user whose balance covers an amount
-- asks for it under a new row id and an administrator rejects that row; the balance is then lower
-- by twice the amount.
pub withdraw_then_reject :
    (user : ℕ) (amount : ℤ) (comment bank : Option String) (new_id : ℕ) (s : Store) (w : Wallet)
    (final : Option ℤ) (reason : Option String) (admin : Option ℕ)
    → IsSound s
    → find_wallet_of user s ≡ some w
    → amount ≤ℤ w.real_balance
    → find (λ t. t.id == new_id) s.transactions ≡ none
    → let asked = commit s (create_withdrawal_request user amount comment bank new_id s) in
      let rejected_at = admin_process_transaction new_id rejected final reason admin asked in
      find_wallet w.id (commit asked rejected_at)
      ≡ some (record w { real_balance = w.real_balance -ℤ amount -ℤ amount })
withdraw_then_reject user amount comment bank new_id s w final reason admin h e enough new =
    let (charged, _, row) =
      create_withdrawal_request-covered user amount comment bank new_id s w h e enough new in
    reject_withdrawal-charges new_id final reason admin _
      (withdrawal_row w amount comment bank new_id) _ row charged refl refl
    ∙ ap (λ b. some (record w { real_balance = b })) (take_twice w.real_balance amount)
