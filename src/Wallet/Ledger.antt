-- ===== src/Wallet/Ledger.antt =====
-- The ledger read as the history of the balances: what each row of a wallet has moved, the sum of
-- those moves, and how the sum follows a new row and a changed one.
use cardgames.Prelude.{
  ℕ, ◌≡◌, ◌≢◌, ◌∙◌, inl, inr, none, some, List, [], ◌∷◌, arith, ℤ, pos, ◌+ℤ◌, int_laws, parts_of_eq,
  ◌==◌, ==_iff, if◌then◌else◌, All,
}
use cardgames.Store.{
  Store, Wallet, Transaction, TransactionType, TransactionStatus, rejected, completed, withdraw,
}
use cardgames.Store.Table.{find, update, UniqueKeys, find-cons, update_absent}

-- What a row is meant to have moved by its status: a withdrawal is taken at once and returned when
-- it is rejected, all else moves on completion.
abbrev pub settled : TransactionType → TransactionStatus → ℤ → ℤ
settled withdraw rejected a = pos 0
settled withdraw _ a = a
settled _ completed a = a
settled _ _ a = pos 0

abbrev pub effect : Transaction → ℤ
effect t = settled t.type t.status t.amount

abbrev pub contribution : ℕ → Transaction → ℤ
contribution k t = if t.wallet_id == k then effect t else pos 0

unfoldable pub ledger_total : ℕ → List Transaction → ℤ
ledger_total k [] = pos 0
ledger_total k (t ∷ ts) = contribution k t +ℤ ledger_total k ts

-- The balance is what the ledger adds up to.
abbrev pub IsBalanced : List Transaction → Wallet → Type 0
IsBalanced ts w = w.real_balance ≡ ledger_total w.id ts

-- The invariant of the wallets and their ledger.
pub record AreSound (ws : List Wallet) (ts : List Transaction) : Type 0 where
  pub unique_wallets : UniqueKeys (λ (w : Wallet). w.id) ws
  pub unique_rows : UniqueKeys (λ (t : Transaction). t.id) ts
  pub balanced : All (IsBalanced ts) ws

abbrev pub IsSound : Store → Type 0
IsSound s = AreSound s.wallets s.transactions

-- A changed row moves the total by the change of what it contributes.
pub ledger_total-update :
    (j k : ℕ) (f : Transaction → Transaction) (ts : List Transaction) (t : Transaction)
    → UniqueKeys (λ (r : Transaction). r.id) ts
    → find (λ r. r.id == k) ts ≡ some t
    → ledger_total j (update (λ r. r.id == k) f ts) +ℤ contribution j t
      ≡ ledger_total j ts +ℤ contribution j (f t)
unfolding find update ledger_total
ledger_total-update j k f [] t u h = cc
ledger_total-update j k f (r ∷ ts) t u h = elim (find-cons (λ z. z.id == k) r ts t h) [
  | inl (e, q) ↦
      let here : r.id ≡ k = (==_iff r.id k).0 e in
      let gone : find (λ z. z.id == k) ts ≡ none = rw (← here) u.0 in
      rw (e, update_absent (λ z. z.id) k f ts gone, ← q) (omega int_laws)
  | inr (e, rest) ↦
      rw e (omega (int_laws, parts_of_eq _ _ (ledger_total-update j k f ts t u.1 rest)))
]

-- A new row of another wallet contributes nothing.
pub contribution_other : (j : ℕ) (t : Transaction) → t.wallet_id ≢ j → contribution j t ≡ pos 0
contribution_other j t h = ground arith

pub contribution_own : (j : ℕ) (t : Transaction) → t.wallet_id ≡ j → contribution j t ≡ effect t
contribution_own j t h = ground arith

-- A row without effect leaves every balance explained.
pub IsBalanced-cons_idle :
    (t : Transaction) (ts : List Transaction) (w : Wallet)
    → effect t ≡ pos 0
    → IsBalanced ts w
    → IsBalanced (t ∷ ts) w
unfolding ledger_total
IsBalanced-cons_idle t ts w idle b =
    b ∙ omega (int_laws, parts_of_eq (contribution w.id t) (pos 0) (ground arith))
