-- ===== src/Tournament/Sound.antt =====
-- Registering and unregistering keep the ledger of the wallets.
use cardgames.Prelude.{
  ℕ, ◌≡◌, refl, sym, subst, inl, inr, true, false, ◌&&◌, ◌||◌, none, some, ◌∷◌, arith, ℤ, pos, ◌+ℤ◌,
  ◌-ℤ◌, int_laws, ltb, ltb_ℤ, leb_ℤ, ◌==◌, Bool-cases, Option-cases,
}
use cardgames.Store.{Store, Wallet, Transaction, create_transaction, find_wallet_of}
use cardgames.Store.Outcome.{Ensures, Ensures-bind, Ensures-return, Ensures-throw, Ensures-nothing}
use cardgames.Tournament.Admit.{admit-Ensures, commit_hall_lem}
use cardgames.Store.Table.{find}
use cardgames.Wallet.Base.{set_balance}
use cardgames.Wallet.Ledger.{IsSound}
use cardgames.Wallet.Posting.{create_transaction_lem, post-AreSound, find_own, take_if_covered_lem}
use cardgames.Tournament.Defs.{
  Tournament, TournamentEntry, Hall, create_entry, commit_hall, set_tournament,
}
use cardgames.Tournament.Register.{total_cost, charge, announce_entry, register_player}
use cardgames.Tournament.Unregister.{refund, may_leave, give_back, unregister_player}

create_transaction-Ensures :
    (row : Transaction) (s : Store)
    → Ensures
        (λ (r : Transaction × Store).
          (find (λ t. t.id == row.id) s.transactions ≡ none)
          × (r ≡ (row, record s { transactions = row ∷ s.transactions })))
        (create_transaction row s)
create_transaction-Ensures row s = elim (create_transaction_lem row s) [
  | inl e ↦ rw e (Ensures-throw _ _)
  | inr (fresh, e) ↦ rw e (Ensures-return _ _ (fresh, refl))
]

pub is_covered :
    (cost : ℕ) (b : ℤ)
    → (ltb 0 cost && ltb_ℤ b (pos cost)) ≡ false
    → ltb 0 cost ≡ true
    → leb_ℤ (pos cost) b ≡ true
is_covered cost b enough paid = ground arith

charge-IsSound :
    (user : ℕ) (w : Wallet) (t : Tournament) (now transaction_id : ℕ) (s : Store)
    → IsSound s
    → find_wallet_of user s ≡ some w
    → (ltb 0 (total_cost t.config) && ltb_ℤ w.real_balance (pos (total_cost t.config))) ≡ false
    → Ensures (λ (r : ℤ × Store). IsSound r.1) (charge w t now transaction_id s)
unfolding charge
charge-IsSound user w t now transaction_id s h e enough =
    elim (Bool-cases (ltb 0 (total_cost t.config))) [
      | inr free ↦ rw free (Ensures-return _ _ h)
      | inl paid ↦
          rw
            (
              paid,
              take_if_covered_lem user w (pos (total_cost t.config)) s h e,
              is_covered (total_cost t.config) w.real_balance enough paid,
            )
            (Ensures-bind _ (λ (r : ℤ × Store). IsSound r.1) _ _ (create_transaction-Ensures _ _)
              λ r new. rw (new.1) (
                Ensures-return _ _ (
                  post-AreSound s.wallets s.transactions h w (λ b. b -ℤ pos (total_cost t.config)) _
                    (find_own user s w h e) refl new.0 (omega int_laws))))
    ]

refund-IsSound :
    (user : ℕ) (w : Wallet) (t : Tournament) (now transaction_id : ℕ) (s : Store)
    → IsSound s
    → find_wallet_of user s ≡ some w
    → Ensures (λ (r : ℕ × Store). IsSound r.1) (refund w t now transaction_id s)
unfolding refund set_balance
refund-IsSound user w t now transaction_id s h e =
    Ensures-bind _ (λ (r : ℕ × Store). IsSound r.1) _ _ (create_transaction-Ensures _ _)
      λ r new. rw (new.1) (
        Ensures-return _ _ (
          post-AreSound s.wallets s.transactions h w (λ b. b +ℤ pos (total_cost t.config)) _
            (find_own user s w h e) refl new.0 refl))

give_back-IsSound :
    (user : ℕ) (t : Tournament) (now transaction_id : ℕ) (s : Store)
    → IsSound s
    → Ensures (λ (r : ℕ × Store). IsSound r.1) (give_back user t now transaction_id s)
unfolding give_back
give_back-IsSound user t now transaction_id s h = elim (Bool-cases (ltb 0 (total_cost t.config))) [
  | inr free ↦ rw free (Ensures-return _ _ h)
  | inl paid ↦ elim (Option-cases (find_wallet_of user s)) [
    | inl e ↦ rw (paid, e) (Ensures-return _ _ h)
    | inr (w, e) ↦ rw (paid, e) (refund-IsSound user w t now transaction_id s h e)
  ]
]

announce_entry-IsSound :
    (user cost : ℕ) (balance : ℤ) (s : Store)
    → IsSound s
    → IsSound (announce_entry user cost balance s)
unfolding announce_entry
announce_entry-IsSound user cost balance s h = elim (Bool-cases (ltb 0 cost && s.redis_up)) [
  | inl up ↦ rw up h
  | inr down ↦ rw down h
]

create_entry-store :
    (new : TournamentEntry) (h : Hall)
    → Ensures (λ (r : TournamentEntry × Hall). r.1.store ≡ h.store) (create_entry new h)
unfolding create_entry
create_entry-store new h =
    elim (Option-cases (
      find (λ e. e.id == new.id || e.tournament_id == new.tournament_id && e.user_id == new.user_id)
        h.entries)) [
          | inl e ↦ rw (e, create_entry) (Ensures-return _ _ refl)
          | inr (old, e) ↦ rw (e, create_entry) (Ensures-throw _ _)
        ]

-- A registration leaves sound wallets sound, whether it is accepted or refused: ids stay unique,
-- and every balance the sum of what its ledger rows have moved.
pub register_player-IsSound :
    (user tournament_id now entry_id transaction_id : ℕ) (h : Hall)
    → IsSound h.store
    → IsSound
        (commit_hall h (register_player user tournament_id now entry_id transaction_id h)).store
unfolding register_player set_tournament
register_player-IsSound user tournament_id now entry_id transaction_id h sound =
    let P : TournamentEntry × Hall → Type 0 = λ r. IsSound r.1.store in
    commit_hall_lem (λ g. IsSound g.store) h _ sound
      (Ensures-bind _ P _ _ (admit-Ensures user tournament_id h) λ x ok_to.
        Ensures-bind _ P _ _
          (charge-IsSound user x.0 x.1 now transaction_id h.store sound ok_to.own ok_to.enough)
          λ paid kept. Ensures-bind _ P _ _ (create_entry-store _ _) λ r same. Ensures-return _ _ (
            announce_entry-IsSound user (total_cost x.1.config) paid.0 r.1.store
              (subst IsSound (sym same) kept)))

-- An unregistration leaves sound wallets sound, whether it is accepted or refused: ids stay
-- unique, and every balance the sum of what its ledger rows have moved.
pub unregister_player-IsSound :
    (user tournament_id now transaction_id : ℕ) (h : Hall)
    → IsSound h.store
    → IsSound (commit_hall h (unregister_player user tournament_id now transaction_id h)).store
unfolding unregister_player set_tournament
unregister_player-IsSound user tournament_id now transaction_id h sound =
    let P : TournamentEntry × Hall → Type 0 = λ r. IsSound r.1.store in
    commit_hall_lem (λ g. IsSound g.store) h _ sound
      (Ensures-bind _ P _ _ (Ensures-nothing (may_leave user tournament_id h)) λ x _.
        Ensures-bind _ P _ _ (give_back-IsSound user x.0 now transaction_id h.store sound)
          λ r kept. Ensures-return _ _ kept)
