-- ===== src/Wallet/Balance.antt =====
-- `getBalance` makes a wallet at most once.
use cardgames.Prelude.{ℕ, ◌≡◌, refl, inl, inr, none, ◌∷◌, ==_refl, Option-cases}
use cardgames.Store.{Store, Wallet, ok, find_wallet, find_wallet_of}
use cardgames.Store.Table.{find}
use cardgames.Wallet.Base.{fresh_wallet, create_wallet, get_balance}

-- With a new wallet id at hand, `getBalance` returns a wallet for every user, and every later call
-- for that user returns the same wallet and leaves the store as the first call left it.
pub get_balance_once :
    (user new_id : ℕ) (s : Store)
    → find_wallet new_id s ≡ none
    → (r : Wallet × Store) × (get_balance user new_id s ≡ ok r)
      × ((other_id : ℕ) → get_balance user other_id r.1 ≡ ok r)
unfolding get_balance
get_balance_once user new_id s free = elim (Option-cases (find_wallet_of user s)) [
  | inr (w, e) ↦ ((w, s), rw (e, get_balance) refl, λ other. rw (e, get_balance) refl)
  | inl e ↦ (
    (fresh_wallet user new_id, made),
    rw (e, get_balance) (created e),
    λ other. unfold find_wallet_of find in rw (get_balance, ==_refl user) refl,
  )
]
  where
    made : Store
    made = record s { wallets = fresh_wallet user new_id ∷ s.wallets }

    created :
        find_wallet_of user s ≡ none
        → create_wallet user new_id s ≡ ok (fresh_wallet user new_id, made)
    created e = unfold create_wallet in rw (e, create_wallet, free) refl
