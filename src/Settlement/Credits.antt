-- ===== src/Settlement/Credits.antt =====
-- What the worker credits.
use cardgames.Prelude.{
  ℕ, suc, ◌<◌, ◌≡◌, ◌≢◌, ◌⊎◌, refl, sym, ◌∙◌, ap, subst, inl, inr, Bool, true, false, ◌&&◌, Option,
  none, some, List, [], ◌∷◌, arith, ℤ, pos, ◌+ℤ◌, ◌<ℤ◌, int_laws, leb_ℤ, +ℤ_assoc, ◌==◌, ==_iff,
  if◌then◌else◌, Bool-cases, Option-cases,
}
use Prim.Native.String.{String}
use text.Mathlib.Text.{◌==◌ as same_text}
use cardgames.Store.{
  Store, Wallet, Transaction, Reference, cash_out, find_wallet_of, type_index, same_key,
}
use cardgames.Store.Table.{find, find-update_found, find-update_apart, find_test}
use cardgames.Wallet.Base.{set_balance}
use cardgames.Wallet.Ledger.{IsSound}
use cardgames.Wallet.Effects.{IsNew}
use cardgames.Wallet.Posting.{transactions-push, wallets-push, find_own}
use cardgames.Wallet.Sound.{settle_cash_out-IsSound}
use cardgames.Wallet.Session.{settle_done, cash_out_row}
use cardgames.Wallet.CashOut.{settle_cash_out}
use cardgames.Settlement.Defs.{TableId, CashOutJob, process_cash_out, run_jobs}

-- Every row of the ledger has an id below this one.
unfoldable pub AllBelow : ℕ → List Transaction → Type 0
AllBelow n [] = Unit
AllBelow n (t ∷ ts) = (t.id < n) × AllBelow n ts

AllBelow-suc : (n : ℕ) (ts : List Transaction) → AllBelow n ts → AllBelow (suc n) ts
unfolding AllBelow
AllBelow-suc n [] b = tt
AllBelow-suc n (t ∷ ts) b = (omega arith, AllBelow-suc n ts b.1)

AllBelow-new : (n : ℕ) (ts : List Transaction) → AllBelow n ts → find (λ t. t.id == n) ts ≡ none
unfolding AllBelow find
AllBelow-new n [] b = refl
AllBelow-new n (t ∷ ts) b = rw (differs t.id n b.0) (AllBelow-new n ts b.1)
  where
    differs : (a n : ℕ) → a < n → (a == n) ≡ false
    differs a n h = ground arith

no_reference :
    (ts : List Transaction)
    → find (λ t. same_key none t.reference_id && type_index cash_out == type_index t.type) ts ≡ none
unfolding find
no_reference [] = refl
no_reference (t ∷ ts) = no_reference ts

-- What a job is to pay a user, of its fields alone.
abbrev positive : Option ℤ → ℤ
positive none = pos 0
positive (some a) = if leb_ℤ a (pos 0) then pos 0 else a

abbrev pub is_user : ℕ → Option ℕ → Bool
is_user user none = false
is_user user (some u) = u == user

abbrev pub is_given {ℓ} : {A : Type ℓ} → Option A → Bool
is_given none = false
is_given (some a) = true

abbrev pub owed_by : ℕ → CashOutJob → ℤ
owed_by user job =
    if same_text job.name "settle-cashout" && is_user user job.user_id && is_given job.table_id
    then positive job.amount
    else pos 0

unfoldable pub owed : ℕ → List CashOutJob → ℤ
owed user [] = pos 0
owed user (job ∷ jobs) = owed_by user job +ℤ owed user jobs

abbrev pub credited : ℤ → Wallet → Wallet
credited a w = record w { real_balance = w.real_balance +ℤ a }

credited_zero : (w : Wallet) → credited (pos 0) w ≡ w
credited_zero w = ap (λ b. record w { real_balance = b }) (add_zero w.real_balance)
  where
    add_zero : (b : ℤ) → b +ℤ pos 0 ≡ b
    add_zero b = omega int_laws

pub owner : (user : ℕ) (s : Store) (w : Wallet) → find_wallet_of user s ≡ some w → w.user_id ≡ user
unfolding find_wallet_of
owner user s w e = (==_iff _ _).0 (find_test (λ v. v.user_id == user) s.wallets w e)

module _ (payee : ℕ) (amount : ℤ) (table : TableId) (new_id : ℕ) (s : Store) (h : IsSound s)
    (b : AllBelow new_id s.transactions) where
  new : IsNew new_id cash_out none s
  new = (AllBelow-new new_id s.transactions b, no_reference s.transactions)

  settled : Store
  settled = settle_cash_out payee amount table.number table.text none new_id s

  settle-wallets :
      (w : Wallet)
      → find_wallet_of payee s ≡ some w
      → pos 0 <ℤ amount
      → settled.wallets ≡ (set_balance w.id (λ _. w.real_balance +ℤ amount) s).wallets
  unfolding settled
  settle-wallets w e p =
      rw (settle_done payee amount table.number table.text none new_id s w h e p new)
        (wallets-push payee w.id amount cash_out _)

  settle-payee :
      (w : Wallet)
      → find_wallet_of payee s ≡ some w
      → pos 0 <ℤ amount
      → find_wallet_of payee settled ≡ some (credited amount w)
  unfolding find_wallet_of set_balance
  settle-payee w e p =
      ap (λ ws. find (λ v. v.user_id == payee) ws) (settle-wallets w e p)
      ∙ find-update_found (λ v. v.id) _ _ s.wallets w h.unique_wallets (λ v. refl) e

  settle-other :
      (user : ℕ) (v w : Wallet)
      → find_wallet_of payee s ≡ some v
      → find_wallet_of user s ≡ some w
      → user ≢ payee
      → pos 0 <ℤ amount
      → find_wallet_of user settled ≡ some w
  settle-other user v w e f ne p =
      unfold find_wallet_of set_balance in
      ap (λ ws. find (λ z. z.user_id == user) ws) (settle-wallets v e p)
      ∙ find-update_apart (λ z. z.id) v.id _ _ s.wallets w (λ z. refl) f apart
    where
      same_wallet : w.id ≡ v.id → some w ≡ some v
      same_wallet q = sym (find_own user s w h f) ∙ rw q (find_own payee s v h e)

      same_owner : some w ≡ some v → w.user_id ≡ v.user_id
      same_owner q = ground arith

      apart : w.id ≢ v.id
      apart q = ne (sym (owner user s w f) ∙ same_owner (same_wallet q) ∙ owner payee s v e)

  settle-transactions :
      (w : Wallet)
      → find_wallet_of payee s ≡ some w
      → pos 0 <ℤ amount
      → AllBelow (suc new_id) settled.transactions
  unfolding settled AllBelow cash_out_row
  settle-transactions w e p =
      rw
        (
          settle_done payee amount table.number table.text none new_id s w h e p new,
          transactions-push,
        )
        (omega arith, AllBelow-suc new_id s.transactions b)

  settle-paid :
      (user : ℕ) (v w : Wallet)
      → find_wallet_of payee s ≡ some v
      → find_wallet_of user s ≡ some w
      → pos 0 <ℤ amount
      → find_wallet_of user settled ≡ some (credited (if payee == user then amount else pos 0) w)
  settle-paid user v w e f p = elim (Bool-cases (payee == user)) [
    | inl own ↦
        let q : payee ≡ user = (==_iff payee user).0 own in
        rw own (
          subst (λ u. find_wallet_of u settled ≡ some (credited amount w)) q
            (settle-payee w (rw q f) p))
    | inr other ↦ rw (other, credited_zero w) (settle-other user v w e f (λ q. ground arith) p)
  ]

either_zero : (b : Bool) → (if b then pos 0 else pos 0) ≡ pos 0
either_zero b = ground arith

settle-nobody :
    (payee : ℕ) (amount : ℤ) (number : ℕ) (text : String) (reference : Option Reference)
    (new_id : ℕ) (s : Store)
    → find_wallet_of payee s ≡ none
    → settle_cash_out payee amount number text reference new_id s ≡ s
unfolding settle_cash_out
settle-nobody payee amount number text reference new_id s e =
    elim (Bool-cases (leb_ℤ amount (pos 0))) [ inl zero ↦ rw zero refl | inr p ↦ rw (p, e) refl ]

-- A job does nothing and owes nothing, or it is a settlement of what it owes to one user.
module _ (job : CashOutJob) (new_id : ℕ) (s : Store) where
  abbrev IsIdle : Type 0
  IsIdle = (process_cash_out job new_id s ≡ s) × ((user : ℕ) → owed_by user job ≡ pos 0)

  abbrev IsSettling : Type 0
  IsSettling =
      (payee : ℕ) × (amount : ℤ) × (table : TableId) × (process_cash_out job new_id s
        ≡ settle_cash_out payee amount table.number table.text job.reference_id new_id s)
      × (pos 0 <ℤ amount)
      × ((user : ℕ) → owed_by user job ≡ (if payee == user then amount else pos 0))

  pub process_cases : IsIdle ⊎ IsSettling
  unfolding process_cash_out
  process_cases = elim (Bool-cases (same_text job.name "settle-cashout")) [
    | inr other ↦ inl (rw other refl, λ user. rw other refl)
    | inl named ↦ elim (Option-cases job.user_id) [
      | inl nobody ↦ inl (rw (named, nobody) refl, λ user. rw (named, nobody) refl)
      | inr (payee, e) ↦ elim (Option-cases job.amount) [
        | inl nothing ↦
            inl (rw (named, e, nothing) refl, λ user. rw (named, e, nothing) (either_zero _))
        | inr (amount, e') ↦ elim (Bool-cases (leb_ℤ amount (pos 0))) [
          | inl zero ↦
              inl (rw (named, e, e', zero) refl, λ user. rw (named, e, e', zero) (either_zero _))
          | inr p ↦ elim (Option-cases job.table_id) [
            | inl nowhere ↦ inl (
              rw (named, e, e', p, nowhere) refl,
              λ user. rw (named, e, e', p, nowhere) (ground arith),
            )
            | inr (table, e'') ↦ inr (
              payee,
              amount,
              table,
              rw (named, e, e', p, e'') refl,
              ground arith,
              λ user. rw (named, e, e', p, e'') (ground arith),
            )
          ]
        ]
      ]
    ]
  ]

pub process-IsSound :
    (job : CashOutJob) (new_id : ℕ) (s : Store)
    → IsSound s
    → IsSound (process_cash_out job new_id s)
process-IsSound job new_id s h = elim (process_cases job new_id s) [
  | inl (same, nothing) ↦ rw same h
  | inr (payee, amount, table, same, p, due) ↦
      rw same
        (settle_cash_out-IsSound payee amount table.number table.text job.reference_id new_id s h)
]

-- What a job without a reference leaves behind.
record IsPaid (job : CashOutJob) (new_id : ℕ) (s : Store) : Type 0 where
  sound : IsSound (process_cash_out job new_id s)
  below : AllBelow (suc new_id) (process_cash_out job new_id s).transactions
  paid :
      (user : ℕ) (w : Wallet)
      → find_wallet_of user s ≡ some w
      → find_wallet_of user (process_cash_out job new_id s) ≡ some (credited (owed_by user job) w)

module _ (job : CashOutJob) (new_id : ℕ) (s : Store) (h : IsSound s)
    (b : AllBelow new_id s.transactions) (no_shield : job.reference_id ≡ none) where
  idle-IsPaid :
      (process_cash_out job new_id s ≡ s)
      → ((user : ℕ) (w : Wallet) → find_wallet_of user s ≡ some w → owed_by user job ≡ pos 0)
      → IsPaid job new_id s
  idle-IsPaid same nothing = record {
    sound = rw same h;
    below = rw same (AllBelow-suc new_id s.transactions b);
    paid = λ user w e. rw (same, nothing user w e, credited_zero w) e;
  }

  process-IsPaid : IsPaid job new_id s
  process-IsPaid = elim (process_cases job new_id s) [
    | inl (same, nothing) ↦ idle-IsPaid same (λ user w e. nothing user)
    | inr (payee, amount, table, same, p, due) ↦ elim (Option-cases (find_wallet_of payee s)) [
      | inl e ↦
          idle-IsPaid (same ∙ settle-nobody payee amount table.number table.text _ new_id s e)
            (λ user w f. due user ∙ stranger payee user amount w e f)
      | inr (v, e) ↦
          let settled_so : process_cash_out job new_id s ≡ settled payee amount table new_id s h b =
            same ∙ rw no_shield (unfold settled in refl) in
          record {
            sound = process-IsSound job new_id s h;
            below = rw settled_so (settle-transactions payee amount table new_id s h b v e p);
            paid = λ user w f.
                rw (settled_so, due user)
                  (settle-paid payee amount table new_id s h b user v w e f p);
          }
    ]
  ]
    where
      stranger :
          (payee user : ℕ) (amount : ℤ) (w : Wallet)
          → find_wallet_of payee s ≡ none
          → find_wallet_of user s ≡ some w
          → (if payee == user then amount else pos 0) ≡ pos 0
      stranger payee user amount w e f = elim (Bool-cases (payee == user)) [
        | inl own ↦ let q : payee ≡ user = (==_iff payee user).0 own in cc
        | inr other ↦ rw other refl
      ]

unfoldable pub NoShield : List CashOutJob → Type 0
NoShield [] = Unit
NoShield (job ∷ jobs) = (job.reference_id ≡ none) × NoShield jobs

credited_again : (a b : ℤ) (w : Wallet) → credited b (credited a w) ≡ credited (a +ℤ b) w
credited_again a b w = ap (λ r. record w { real_balance = r }) (+ℤ_assoc w.real_balance a b)

-- The worker pays what is owed: in a sound store whose rows have ids below the next new one, a run
-- of jobs without references leaves a user's wallet with its balance and the sum of the amounts
-- that the valid jobs name for the user.
pub run_jobs-credits :
    (jobs : List CashOutJob) (new_id : ℕ) (s : Store) (user : ℕ) (w : Wallet)
    → IsSound s
    → AllBelow new_id s.transactions
    → NoShield jobs
    → find_wallet_of user s ≡ some w
    → find_wallet_of user (run_jobs jobs new_id s) ≡ some (credited (owed user jobs) w)
unfolding run_jobs owed NoShield
run_jobs-credits [] new_id s user w h b bare e = e ∙ ap some (sym (credited_zero w))
run_jobs-credits (job ∷ jobs) new_id s user w h b bare e =
    let first = process-IsPaid job new_id s h b bare.0 in
    run_jobs-credits jobs (suc new_id) (process_cash_out job new_id s) user _ first.sound
      first.below bare.1 (first.paid user w e)
    ∙ ap some (credited_again (owed_by user job) (owed user jobs) w)
