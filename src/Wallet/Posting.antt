-- ===== src/Wallet/Posting.antt =====
-- Postings: what one new or changed row, with the change of its wallet, does to the invariant.
use cardgames.Prelude.{
  ℕ, ◌≡◌, refl, sym, ◌∙◌, inl, inr, ◌⊎◌, false, none, some, List, [], ◌∷◌, arith, ℤ, pos, ◌+ℤ◌,
  ◌-ℤ◌, leb_ℤ, int_laws, parts_of_eq, ◌==◌, ==_iff, Bool-cases, Option-cases, if◌then◌else◌, All,
}
use cardgames.Store.{
  Store, Wallet, Transaction, TransactionType, Result, ok, err, unique_violation, commit, ◌>>=◌,
  clashes, find_wallet, find_wallet_of, find_transaction, create_transaction,
}
use cardgames.Store.Table.{
  find, update, UniqueKeys-update, find_by_key, find_test, All-find, All-update, update_many_one,
  find-none_weaken, find-update_self,
}
use cardgames.Wallet.Base.{take_if_covered, push_balance_update, set_balance}
use cardgames.Wallet.Ledger.{
  effect, ledger_total, IsBalanced, AreSound, IsSound, contribution_other, contribution_own,
  IsBalanced-cons_idle, ledger_total-update,
}

module _ (ws : List Wallet) (ts : List Transaction) (sound : AreSound ws ts) where
  -- A row that moves a wallet's balance by its effect keeps the invariant.
  pub post-AreSound :
      (w : Wallet) (f : ℤ → ℤ) (row : Transaction)
      → find (λ v. v.id == w.id) ws ≡ some w
      → row.wallet_id ≡ w.id
      → find (λ t. t.id == row.id) ts ≡ none
      → f w.real_balance ≡ w.real_balance +ℤ effect row
      → AreSound
          (update (λ v. v.id == w.id) (λ v. record v { real_balance = f v.real_balance }) ws)
          (row ∷ ts)
  unfolding ledger_total
  post-AreSound w f row found own fresh moves = record {
    unique_wallets = UniqueKeys-update (λ v. v.id) w.id _ ws (λ v. refl) sound.unique_wallets;
    unique_rows = (fresh, sound.unique_rows);
    balanced =
        All-update (IsBalanced ts) (IsBalanced (row ∷ ts)) (λ v. v.id) w.id _ ws w
          sound.unique_wallets found
          (moves
            ∙ omega (
              int_laws,
              parts_of_eq _ _ (All-find (IsBalanced ts) _ ws w sound.balanced found),
              parts_of_eq _ _ (contribution_own w.id row own),
            ))
          (λ v ne b.
            b
            ∙ omega
                (int_laws, parts_of_eq _ _ (contribution_other v.id row (λ e. ne (sym e ∙ own)))))
          sound.balanced;
  }

  -- A row with no effect leaves the balances alone.
  pub record-AreSound :
      (row : Transaction)
      → find (λ t. t.id == row.id) ts ≡ none
      → effect row ≡ pos 0
      → AreSound ws (row ∷ ts)
  record-AreSound row fresh idle = record {
    unique_wallets = sound.unique_wallets;
    unique_rows = (fresh, sound.unique_rows);
    balanced = All-idle ws sound.balanced;
  }
    where
      All-idle : (vs : List Wallet) → All (IsBalanced ts) vs → All (IsBalanced (row ∷ ts)) vs
      All-idle [] a = tt
      All-idle (v ∷ vs) a = (IsBalanced-cons_idle row ts v idle a.0, All-idle vs a.1)

clashes_id : (row old : Transaction) → clashes row old ≡ false → (old.id == row.id) ≡ false
unfolding clashes
clashes_id row old h = ground arith

-- A new row is refused, or its id is new and it stands first.
pub create_transaction_lem :
    (row : Transaction) (s : Store)
    → (create_transaction row s ≡ err unique_violation)
      ⊎ ((find (λ t. t.id == row.id) s.transactions ≡ none)
          × (create_transaction row s ≡ ok (row, record s { transactions = row ∷ s.transactions })))
unfolding create_transaction
create_transaction_lem row s = elim (Option-cases (find (clashes row) s.transactions)) [
  | inl e ↦ inr (find-none_weaken _ _ s.transactions (clashes_id row) e, rw (e, create_transaction))
  | inr (old, e) ↦ inl (rw (e, create_transaction))
]

-- A body that creates a row keeps the invariant if it does where the row is new.
pub commit-create :
    (s base : Store) (row : Transaction) (k : Transaction × Store → Result (Transaction × Store))
    → IsSound s
    → (find (λ t. t.id == row.id) base.transactions ≡ none
        → IsSound (commit s (k (row, record base { transactions = row ∷ base.transactions }))))
    → IsSound (commit s (create_transaction row base >>= k))
commit-create s base row k sound next = elim (create_transaction_lem row base) [
  | inl e ↦ rw e sound
  | inr (fresh, e) ↦ rw e (next fresh)
]

pub commit-create_last :
    (s base : Store) (row : Transaction)
    → IsSound s
    → (find (λ t. t.id == row.id) base.transactions ≡ none
        → IsSound (record base { transactions = row ∷ base.transactions }))
    → IsSound (commit s (create_transaction row base))
commit-create_last s base row sound next = elim (create_transaction_lem row base) [
  | inl e ↦ rw e sound
  | inr (fresh, e) ↦ rw e (next fresh)
]

-- The alert leaves wallets and ledger alone.
pub push_balance_update-IsSound :
    (user k : ℕ) (delta : ℤ) (type : TransactionType) (s : Store)
    → IsSound s
    → IsSound (push_balance_update user k delta type s)
unfolding push_balance_update
push_balance_update-IsSound user k delta type s h = elim (Option-cases (find_wallet k s)) [
  | inl e ↦ rw (e, push_balance_update) h
  | inr (w, e) ↦ elim (Bool-cases s.redis_up) [
    | inl up ↦ rw (e, push_balance_update, up) h
    | inr down ↦ rw (e, push_balance_update, down) h
  ]
]

-- A wallet found by its user is found by its id.
pub find_own :
    (user : ℕ) (s : Store) (w : Wallet)
    → IsSound s
    → find_wallet_of user s ≡ some w
    → find (λ v. v.id == w.id) s.wallets ≡ some w
unfolding find_wallet_of
find_own user s w h e = find_by_key (λ v. v.id) _ s.wallets w h.unique_wallets e

-- The conditional update of a wallet that was found: it takes the amount if that is covered.
pub take_if_covered_lem :
    (user : ℕ) (w : Wallet) (amount : ℤ) (s : Store)
    → IsSound s
    → find_wallet_of user s ≡ some w
    → take_if_covered w.id amount s ≡ (
        if leb_ℤ amount w.real_balance
        then (
          1,
          update
              (λ v. v.id == w.id)
              (λ v. record v { real_balance = v.real_balance -ℤ amount })
              s.wallets,
        )
        else (0, s.wallets))
unfolding take_if_covered
take_if_covered_lem user w amount s h e =
    update_many_one (λ v. v.id) w.id (λ v. leb_ℤ amount v.real_balance) _ s.wallets w
      h.unique_wallets (find_own user s w h e)

-- Changing one row by what its wallet gains keeps the invariant.
pub change-AreSound :
    (ws : List Wallet) (ts : List Transaction) (w : Wallet) (t : Transaction) (k : ℕ) (g : ℤ → ℤ)
    (f : Transaction → Transaction)
    → AreSound ws ts
    → find (λ v. v.id == t.wallet_id) ws ≡ some w
    → find (λ r. r.id == k) ts ≡ some t
    → ((r : Transaction) → (f r).id ≡ r.id)
    → (f t).wallet_id ≡ t.wallet_id
    → g w.real_balance +ℤ effect t ≡ w.real_balance +ℤ effect (f t)
    → AreSound
        (update (λ v. v.id == t.wallet_id) (λ v. record v { real_balance = g v.real_balance }) ws)
        (update (λ r. r.id == k) f ts)
change-AreSound ws ts w t k g f h found row same own moves = record {
  unique_wallets = UniqueKeys-update (λ v. v.id) t.wallet_id _ ws (λ v. refl) h.unique_wallets;
  unique_rows = UniqueKeys-update (λ r. r.id) k f ts same h.unique_rows;
  balanced =
      All-update (IsBalanced ts) (IsBalanced (update (λ r. r.id == k) f ts)) (λ v. v.id) t.wallet_id
        _ ws w h.unique_wallets found
        (omega (
          int_laws,
          parts_of_eq _ _ moves,
          parts_of_eq _ _ (All-find (IsBalanced ts) _ ws w h.balanced found),
          parts_of_eq _ _ (ledger_total-update w.id k f ts t h.unique_rows row),
          parts_of_eq _ _ (contribution_own w.id t (sym mine)),
          parts_of_eq _ _ (contribution_own w.id (f t) (own ∙ sym mine)),
        ))
        (λ v ne b. omega (
          int_laws,
          parts_of_eq _ _ b,
          parts_of_eq _ _ (ledger_total-update v.id k f ts t h.unique_rows row),
          parts_of_eq _ _ (contribution_other v.id t (λ e. ne (sym e))),
          parts_of_eq _ _ (contribution_other v.id (f t) (λ e. ne (sym e ∙ own))),
        ))
        h.balanced;
}
  where
    mine : w.id ≡ t.wallet_id
    mine = (==_iff _ _).0 (find_test _ ws w found)

-- The alert changes no wallet.
pub find_wallet-push :
    (j user k : ℕ) (delta : ℤ) (type : TransactionType) (s : Store)
    → find_wallet j (push_balance_update user k delta type s) ≡ find_wallet j s
unfolding find_wallet push_balance_update
find_wallet-push j user k delta type s = elim (Option-cases (find (λ w. w.id == k) s.wallets)) [
  | inl e ↦ rw (e, push_balance_update)
  | inr (w, e) ↦ elim (Bool-cases s.redis_up) [
    | inl up ↦ rw (e, push_balance_update, up)
    | inr down ↦ rw (e, push_balance_update, down)
  ]
]

pub find_transaction-push :
    (j user k : ℕ) (delta : ℤ) (type : TransactionType) (s : Store)
    → find_transaction j (push_balance_update user k delta type s) ≡ find_transaction j s
unfolding find_wallet find_transaction push_balance_update
find_transaction-push j user k delta type s =
    elim (Option-cases (find (λ w. w.id == k) s.wallets)) [
      | inl e ↦ rw (e, push_balance_update)
      | inr (w, e) ↦ elim (Bool-cases s.redis_up) [
        | inl up ↦ rw (e, push_balance_update, up)
        | inr down ↦ rw (e, push_balance_update, down)
      ]
    ]

pub find_wallet-set_balance :
    (k : ℕ) (f : ℤ → ℤ) (s : Store) (w : Wallet)
    → find_wallet k s ≡ some w
    → find_wallet k (set_balance k f s) ≡ some (record w { real_balance = f w.real_balance })
unfolding find_wallet set_balance
find_wallet-set_balance k f s w e = find-update_self (λ v. v.id) k _ s.wallets w (λ v. refl) e

-- The alert leaves both tables as they are.
pub transactions-push :
    (user k : ℕ) (delta : ℤ) (type : TransactionType) (s : Store)
    → (push_balance_update user k delta type s).transactions ≡ s.transactions
unfolding push_balance_update
transactions-push user k delta type s = elim (Option-cases (find_wallet k s)) [
  | inl e ↦ rw (e, push_balance_update)
  | inr (w, e) ↦ elim (Bool-cases s.redis_up) [
    | inl up ↦ rw (e, push_balance_update, up)
    | inr down ↦ rw (e, push_balance_update, down)
  ]
]

pub wallets-push :
    (user k : ℕ) (delta : ℤ) (type : TransactionType) (s : Store)
    → (push_balance_update user k delta type s).wallets ≡ s.wallets
unfolding push_balance_update
wallets-push user k delta type s = elim (Option-cases (find_wallet k s)) [
  | inl e ↦ rw (e, push_balance_update)
  | inr (w, e) ↦ elim (Bool-cases s.redis_up) [
    | inl up ↦ rw (e, push_balance_update, up)
    | inr down ↦ rw (e, push_balance_update, down)
  ]
]
