-- ===== src/Reserves/Gap.antt =====
-- What the audit's equation leaves out: the discrepancy, by the rows of the ledger.
use cardgames.Prelude.{
  ℕ, ◌≡◌, ◌≢◌, inl, inr, none, some, List, [], ◌∷◌, arith, ℤ, pos, ◌+ℤ◌, ◌-ℤ◌, abs, int_laws,
  parts_of_eq, ◌==◌, ==_iff, if◌then◌else◌, All, sym, refl,
}
use cardgames.Store.{
  Store, Wallet, Transaction, TransactionType, TransactionStatus, pending, approved, rejected,
  completed, failed, deposit, withdraw, admin_credit, admin_debit,
}
use cardgames.Store.Table.{find, UniqueKeys, find-cons}
use cardgames.Wallet.Ledger.{
  settled, effect, contribution, contribution_own, contribution_other, ledger_total, IsBalanced,
  IsSound,
}
use cardgames.Reserves.Total.{total, total-add, total_zero}
use cardgames.Reserves.Defs.{
  UserType, player, house, bot, is_player, is_house, counted_amount, column, calculate_system_pool,
  calculate_player_wallets, calculate_house_balance, TableChips, sum_chips_from_redis, report_of,
}

-- What a row has moved and the pool does not count. Deposits and credits are counted in full; a
-- withdrawal is taken when it is asked for and counted when it is completed, without its sign; and
-- nothing that passes between a wallet, the tables and the house is counted.
abbrev pub uncounted : TransactionType → TransactionStatus → ℤ → ℤ
uncounted deposit st a = pos 0
uncounted admin_credit st a = pos 0
uncounted withdraw rejected a = pos 0
uncounted withdraw completed a = a +ℤ abs a
uncounted withdraw st a = a
uncounted admin_debit completed a = a +ℤ abs a
uncounted admin_debit st a = pos 0
uncounted ty completed a = a
uncounted ty st a = pos 0

abbrev pub row_gap : Transaction → ℤ
row_gap t = uncounted t.type t.status t.amount

row_gap_lem :
    (t : Transaction)
    → counted_amount deposit (λ a. a) t
        +ℤ counted_amount admin_credit (λ a. a) t
        -ℤ counted_amount withdraw abs t
        -ℤ counted_amount admin_debit abs t
        +ℤ row_gap t
      ≡ effect t
row_gap_lem t = by_type t.type t.status t.amount
  where
    put : TransactionType → TransactionStatus → ℤ → Transaction
    put ty st a = record t { type = ty; status = st; amount = a }

    by_type :
        (ty : TransactionType) (st : TransactionStatus) (a : ℤ)
        → counted_amount deposit (λ a. a) (put ty st a)
            +ℤ counted_amount admin_credit (λ a. a) (put ty st a)
            -ℤ counted_amount withdraw abs (put ty st a)
            -ℤ counted_amount admin_debit abs (put ty st a)
            +ℤ uncounted ty st a
          ≡ settled ty st a
    by_type deposit pending a = omega int_laws
    by_type deposit approved a = omega int_laws
    by_type deposit rejected a = omega int_laws
    by_type deposit completed a = omega int_laws
    by_type deposit failed a = omega int_laws
    by_type _ pending a = omega int_laws
    by_type _ approved a = omega int_laws
    by_type _ rejected a = omega int_laws
    by_type _ completed a = omega int_laws
    by_type _ failed a = omega int_laws

-- The pool and what it leaves out are what the ledger has moved.
pool_lem :
    (ts : List Transaction)
    → (calculate_system_pool ts).net_pool +ℤ total row_gap ts ≡ total effect ts
unfolding calculate_system_pool total
pool_lem [] = omega int_laws
pool_lem (t ∷ ts) = omega (int_laws, parts_of_eq _ _ (row_gap_lem t), parts_of_eq _ _ (pool_lem ts))

total_absent :
    (t : Transaction) (ws : List Wallet)
    → find (λ v. v.id == t.wallet_id) ws ≡ none
    → total (λ v. contribution v.id t) ws ≡ pos 0
unfolding total find
total_absent t [] h = refl
total_absent t (v ∷ ws) h = omega (
  int_laws,
  parts_of_eq _ _ (contribution_other v.id t (λ e. ground arith)),
  parts_of_eq _ _ (total_absent t ws (ground arith)),
)

-- A row contributes to its wallet alone.
total_one :
    (t : Transaction) (ws : List Wallet) (w : Wallet)
    → UniqueKeys (λ (v : Wallet). v.id) ws
    → find (λ v. v.id == t.wallet_id) ws ≡ some w
    → total (λ v. contribution v.id t) ws ≡ effect t
unfolding total find
total_one t [] w u h = cc
total_one t (v ∷ ws) w u h = elim (find-cons (λ z. z.id == t.wallet_id) v ws w h) [
  | inl (e, q) ↦
      let here : v.id ≡ t.wallet_id = (==_iff v.id t.wallet_id).0 e in
      let gone : find (λ z. z.id == t.wallet_id) ws ≡ none = rw (← here) u.0 in
      omega (
        int_laws,
        parts_of_eq _ _ (contribution_own v.id t (sym here)),
        parts_of_eq _ _ (total_absent t ws gone),
      )
  | inr (e, rest) ↦ omega (
    int_laws,
    parts_of_eq _ _ (contribution_other v.id t (λ same. ground arith)),
    parts_of_eq _ _ (total_one t ws w u.1 rest),
  )
]

-- Every row's wallet is there, as its foreign key says.
abbrev pub OwnsRows : Store → Type 0
OwnsRows s =
    All (λ t. (w : Wallet) × (find (λ v. v.id == t.wallet_id) s.wallets ≡ some w)) s.transactions

total-ledger_total :
    (ws : List Wallet) (ts : List Transaction)
    → UniqueKeys (λ (v : Wallet). v.id) ws
    → All (λ t. (w : Wallet) × (find (λ v. v.id == t.wallet_id) ws ≡ some w)) ts
    → total (λ w. ledger_total w.id ts) ws ≡ total effect ts
unfolding total ledger_total
total-ledger_total ws [] u own = total_zero _ ws (λ w. refl)
total-ledger_total ws (t ∷ ts) u own = omega (
  int_laws,
  parts_of_eq _ _ (
      total-add (λ w. contribution w.id t) (λ w. ledger_total w.id ts)
        (λ w. ledger_total w.id (t ∷ ts)) ws (λ w. refl)),
  parts_of_eq _ _ (total_one t ws own.0.0 u own.0.1),
  parts_of_eq _ _ (total-ledger_total ws ts u own.1),
)

total-balanced :
    (ws : List Wallet) (ts : List Transaction)
    → All (IsBalanced ts) ws
    → total (λ w. w.real_balance) ws ≡ total (λ w. ledger_total w.id ts) ws
unfolding total
total-balanced [] ts h = refl
total-balanced (w ∷ ws) ts h =
    omega (int_laws, parts_of_eq _ _ h.0, parts_of_eq _ _ (total-balanced ws ts h.1))

column_split :
    (user_type : ℕ → UserType) (w : Wallet)
    → user_type w.user_id ≢ bot
    → w.real_balance
      ≡ column is_player user_type (λ w. w.real_balance) w
        +ℤ column is_house user_type (λ w. w.real_balance) w
column_split user_type w h = by_kind (user_type w.user_id) h
  where
    by_kind :
        (k : UserType)
        → k ≢ bot
        → w.real_balance
          ≡ (if is_player k then w.real_balance else pos 0)
            +ℤ (if is_house k then w.real_balance else pos 0)
    by_kind player ne = omega int_laws
    by_kind house ne = omega int_laws
    by_kind bot ne = absurd (ne refl)

-- What the audit leaves out of its equation: in a sound store where every row's wallet is there and
-- no user is a bot, the discrepancy is the chips on the tables, with the bonus balances of the
-- players, and with what the rows have moved and the pool does not count: pending withdrawals,
-- buy-ins and cash-outs, rake, and all that tournaments take and pay.
pub report_of-gap :
    (user_type : ℕ → UserType) (tables : List TableChips) (s : Store)
    → IsSound s
    → OwnsRows s
    → ((u : ℕ) → user_type u ≢ bot)
    → (report_of user_type tables s).system_discrepancy
      ≡ pos (sum_chips_from_redis tables).0
        +ℤ (calculate_player_wallets user_type s.wallets).bonus
        +ℤ total row_gap s.transactions
unfolding report_of calculate_player_wallets calculate_house_balance
report_of-gap user_type tables s h own no_bots = omega (
  int_laws,
  parts_of_eq _ _ (pool_lem s.transactions),
  parts_of_eq _ _ (total-ledger_total s.wallets s.transactions h.unique_wallets own),
  parts_of_eq _ _ (total-balanced s.wallets s.transactions h.balanced),
  parts_of_eq _ _ (
      total-add (column is_player user_type (λ w. w.real_balance))
        (column is_house user_type (λ w. w.real_balance)) (λ w. w.real_balance) s.wallets
        (λ w. column_split user_type w (no_bots w.user_id))),
)
