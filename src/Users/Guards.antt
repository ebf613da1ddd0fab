-- ===== src/Users/Guards.antt =====
-- Who can ban whom, and what a new user's balance stands on.
use cardgames.Prelude.{
  ℕ, ◌≡◌, refl, sym, ◌∙◌, ap, inl, inr, Bool, true, ◌||◌, none, some, ℤ, pos, ◌<ℤ◌, int_laws,
  parts_of_eq, Option-cases,
}
use text.Mathlib.Text.{◌==◌ as same_text}
use cardgames.Store.{err, find_wallet, cannot_ban_admin}
use cardgames.Store.Table.{find}
use cardgames.Store.Outcome.{Ensures, Ensures-return, Ensures-throw, Returns, Returns-ok}
use cardgames.Wallet.Ledger.{IsSound, ledger_total}
use cardgames.Users.Defs.{admin, superadmin, User, House, find_user}
use cardgames.Users.Service.{
  UserResponse, CreateUserDto, AdminUpdateUserDto, or_zero, create_user, ban_user,
  admin_update_user, is_taken, update_user, map_to_user_response,
}

abbrev pub only_ban : AdminUpdateUserDto
only_ban = record { username = none; email = none; role = none; is_banned = some true }

-- The guard of bans is passed by: an administrator may not ban a superadministrator by the call for
-- bans, and bans the same user by the call for updates, in every house that has the user.
ban_user-admin_update_user :
    (empty_matches : Bool) (admin_id target_id : ℕ) (h : House) (t : User)
    → find_user target_id h ≡ some t
    → t.role ≡ superadmin
    → (ban_user admin_id target_id admin h ≡ err cannot_ban_admin)
      × Returns
          (λ (r : UserResponse × House). r.0.is_banned ≡ true)
          (admin_update_user empty_matches target_id only_ban h)
unfolding ban_user admin_update_user is_taken update_user map_to_user_response
ban_user-admin_update_user empty_matches admin_id target_id h t found role =
    (rw (found, role) refl, rw (found) (Returns-ok _ _ refl))

-- A new user's balance has no ledger row: where no row names the new wallet, a creation with a
-- balance above 0 that is accepted leaves wallets and ledger that are not sound.
pub create_user-unsound :
    (dto : CreateUserDto) (id wallet_id : ℕ) (h : House) (b : ℤ)
    → dto.balance ≡ some b
    → pos 0 <ℤ b
    → ledger_total wallet_id h.store.transactions ≡ pos 0
    → Ensures (λ (r : UserResponse × House). ¬ IsSound r.1.store) (create_user dto id wallet_id h)
unfolding create_user
create_user-unsound dto id wallet_id h b given positive unnamed =
    elim (Option-cases
      (find (λ u. same_text u.email dto.email || same_text u.username dto.username) h.users)) [
        | inr (u, e) ↦ rw (create_user, e) (Ensures-throw _ _)
        | inl e ↦ elim (Option-cases (find_user id h)) [
          | inr (u, e') ↦ rw (create_user, e, e') (Ensures-throw _ _)
          | inl e' ↦ elim (Option-cases (find_wallet wallet_id h.store)) [
            | inr (w, e'') ↦ rw (create_user, e, e', e'') (Ensures-throw _ _)
            | inl e'' ↦
                rw (create_user, e, e', e'') (Ensures-return _ _ (λ s. no_row (s.balanced.0)))
          ]
        ]
      ]
  where
    no_row : or_zero dto.balance ≡ ledger_total wallet_id h.store.transactions → ⊥
    no_row q =
        let same : b ≡ pos 0 = ap or_zero (sym given) ∙ q ∙ unnamed in
        omega (int_laws, parts_of_eq _ _ same)
