-- ===== src/Healer/Refunded.antt =====
-- What a sweep does to the wallets.
use cardgames.Prelude.{
  ℕ, suc, ◌≡◌, refl, ◌∙◌, inl, inr, Option, none, some, List, [], ◌∷◌, ◌+ℤ◌, abs, Option-cases,
}
use cardgames.Store.{
  Store, Transaction, Result, ok, err, commit, ◌>>=◌, missing_relation, Error, wallet_not_found,
  unique_violation, find_wallet_of, create_transaction,
}
use cardgames.Wallet.Base.{set_balance}
use cardgames.Wallet.Ledger.{IsSound}
use cardgames.Wallet.Posting.{post-AreSound, commit-create, create_transaction_lem, find_own}
use cardgames.Healer.Defs.{
  Orphan, Sweep, refund_row, start_sweep, log_refund, refund_orphan, note_refund, refund_all,
  auto_resolve_ghost_money, find_orphaned_transactions,
}

note_refund-store :
    (o : Orphan) (r : Result (Transaction × Store)) (w : Sweep)
    → (note_refund o r w).store ≡ commit w.store r
note_refund-store o (ok (t, s)) w = refl
note_refund-store o (err e) w = refl

log_refund-IsSound :
    (system : Option ℕ) (o : Orphan) (r : Transaction × Store) (s : Store)
    → IsSound s
    → IsSound r.1
    → IsSound (commit s (log_refund system o r))
unfolding log_refund
log_refund-IsSound none o r s h p = h
log_refund-IsSound (some i) o r s h p = p

refund_orphan-IsSound :
    (system : Option ℕ) (o : Orphan) (new_id : ℕ) (s : Store)
    → IsSound s
    → IsSound (commit s (refund_orphan system o new_id s))
unfolding refund_orphan set_balance
refund_orphan-IsSound system o new_id s h = elim (Option-cases (find_wallet_of o.user_id s)) [
  | inl e ↦ rw e h
  | inr (w, e) ↦ rw e (
      commit-create s _ _ _ h λ fresh. log_refund-IsSound system o _ s h (
        post-AreSound s.wallets s.transactions h w (λ _. w.real_balance +ℤ abs o.amount) _
          (find_own o.user_id s w h e) refl fresh refl))
]

-- Without the user that the audit row names, each refund throws.
refund_orphan-none :
    (o : Orphan) (new_id : ℕ) (s : Store) → (e : Error) × (refund_orphan none o new_id s ≡ err e)
unfolding refund_orphan log_refund
refund_orphan-none o new_id s = elim (Option-cases (find_wallet_of o.user_id s)) [
  | inl e ↦ (wallet_not_found, rw e)
  | inr (w, e) ↦
      let (x, q) =
        refused (refund_row w o new_id)
          (set_balance w.id (λ _. w.real_balance +ℤ abs o.amount) s) in
      (x, rw e q)
]
  where
    refused :
        (row : Transaction) (base : Store)
        → (e : Error) × ((create_transaction row base >>= log_refund none o) ≡ err e)
    refused row base = elim (create_transaction_lem row base) [
      | inl e ↦ (unique_violation, rw e)
      | inr (fresh, e) ↦ (missing_relation, rw e)
    ]

refund_all-none :
    (new_id : ℕ) (os : List Orphan) (w : Sweep)
    → ((refund_all none new_id os w).store ≡ w.store)
      × ((refund_all none new_id os w).refunded_count ≡ w.refunded_count)
unfolding refund_all
refund_all-none new_id [] w = (refl, refl)
refund_all-none new_id (o ∷ os) w =
    let (x, q) = refund_orphan-none o new_id w.store in
    let rest =
      refund_all-none (suc new_id) os (note_refund o (refund_orphan none o new_id w.store) w) in
    (rest.0 ∙ rw q refl, rest.1 ∙ rw q refl)

-- What every refund keeps, the loop keeps.
refund_all-keeps :
    (P : Store → Type 0) (system : Option ℕ)
    → ((o : Orphan) (new_id : ℕ) (s : Store) → P s → P (commit s (refund_orphan system o new_id s)))
    → (new_id : ℕ) (os : List Orphan) (w : Sweep) → P w.store
    → P (refund_all system new_id os w).store
unfolding refund_all
refund_all-keeps P system keep new_id [] w p = p
refund_all-keeps P system keep new_id (o ∷ os) w p =
    refund_all-keeps P system keep (suc new_id) os _
      (rw (note_refund-store o (refund_orphan system o new_id w.store) w) (keep o new_id w.store p))

-- A sweep keeps the wallets and their ledger sound, whatever is refunded, refused or rolled back.
pub auto_resolve_ghost_money-IsSound :
    (system : Option ℕ) (created_at : ℕ → ℕ) (seated : List ℕ) (now new_id : ℕ) (s : Store)
    → IsSound s
    → IsSound (auto_resolve_ghost_money system created_at seated now new_id s).0.store
unfolding auto_resolve_ghost_money
auto_resolve_ghost_money-IsSound system created_at seated now new_id s h =
    refund_all-keeps IsSound system (refund_orphan-IsSound system) new_id
      (find_orphaned_transactions created_at seated now s) (start_sweep s) h

-- Where no user has the id SYSTEM, a sweep changes nothing: every refund is rolled back with its
-- audit row, none is counted, and no alert is published.
pub auto_resolve_ghost_money-none :
    (created_at : ℕ → ℕ) (seated : List ℕ) (now new_id : ℕ) (s : Store)
    → let swept = auto_resolve_ghost_money none created_at seated now new_id s in
      (swept.0.store ≡ s) × (swept.0.refunded_count ≡ 0) × (swept.1 ≡ none)
unfolding auto_resolve_ghost_money
auto_resolve_ghost_money-none created_at seated now new_id s =
    let (same, none_counted) =
      refund_all-none new_id (find_orphaned_transactions created_at seated now s) (start_sweep s) in
    (same, none_counted, rw none_counted refl)
