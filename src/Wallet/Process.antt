-- ===== src/Wallet/Process.antt =====
-- `adminProcessTransaction` (apps/api/src/wallet/wallet.service.ts): where it keeps the invariant
-- of wallets and ledger, and what it does to a rejected withdrawal.
use cardgames.Prelude.{
  ℕ, ◌≡◌, refl, ◌∙◌, ap, inl, inr, true, false, Option, none, some, arith, ℤ, ◌+ℤ◌, int_laws,
  Bool-cases, Option-cases,
}
use Prim.Native.String.{String}
use cardgames.Store.{
  Store, Wallet, Transaction, TransactionType, TransactionStatus, pending, approved, rejected,
  completed, failed, deposit, withdraw, commit, find_wallet, find_transaction, not_pending, err,
}
use cardgames.Store.Table.{update_id, update-update, find-update_self}
use cardgames.Wallet.Base.{set_balance, record_audit}
use cardgames.Wallet.Admin.{
  Move, credit, give_back, keep, move, is_pending, amount_to_process, amend, apply_move, announce,
  is_storable, set_transaction, admin_process_transaction,
}
use cardgames.Wallet.Ledger.{settled, IsSound}
use cardgames.Wallet.Posting.{
  change-AreSound, push_balance_update-IsSound, find_wallet-push, find_transaction-push,
  find_wallet-set_balance,
}

-- The requests that the ledger's sums survive: any decision on a deposit, and on a withdrawal any
-- but a rejection or a completion with another amount.
abbrev pub Settles : TransactionType → TransactionStatus → Option ℤ → Type 0
Settles deposit _ _ = Unit
Settles withdraw rejected _ = ⊥
Settles withdraw completed (some _) = ⊥
Settles withdraw _ _ = Unit
Settles _ _ _ = ⊥

abbrev moved_balance : Move → ℤ → ℤ → ℤ → ℤ
moved_balance credit processed stored b = b +ℤ processed
moved_balance give_back processed stored b = b +ℤ stored
moved_balance keep processed stored b = b

apply_move_lem :
    (act : Move) (k : ℕ) (processed stored : ℤ) (s : Store)
    → apply_move act k processed stored s ≡ set_balance k (moved_balance act processed stored) s
unfolding set_balance
apply_move_lem credit k processed stored s = refl
apply_move_lem give_back k processed stored s = refl
apply_move_lem keep k processed stored s = rw (update_id _ _ s.wallets (λ w. refl))

abbrev amended : TransactionStatus → Option ℤ → Transaction → Transaction
amended status final r = record r { amount = amount_to_process status final r.amount }

amend_lem :
    (status : TransactionStatus) (final : Option ℤ) (k : ℕ) (s : Store)
    → amend status final k s ≡ set_transaction k (amended status final) s
unfolding set_transaction
amend_lem completed (some a) k s = refl
amend_lem completed none k s = rw (update_id _ _ s.transactions (λ t. refl))
amend_lem pending final k s = rw (update_id _ _ s.transactions (λ t. refl))
amend_lem approved final k s = rw (update_id _ _ s.transactions (λ t. refl))
amend_lem rejected final k s = rw (update_id _ _ s.transactions (λ t. refl))
amend_lem failed final k s = rw (update_id _ _ s.transactions (λ t. refl))

is_pending_eq : (st : TransactionStatus) → is_pending st ≡ true → st ≡ pending
is_pending_eq pending h = refl
is_pending_eq st h = cc

-- The balance moves by the change of what the row has moved.
settles_lem :
    (ty : TransactionType) (status : TransactionStatus) (final : Option ℤ) (a b : ℤ)
    → Settles ty status final
    → moved_balance (move status ty) (amount_to_process status final a) a b +ℤ settled ty pending a
      ≡ b +ℤ settled ty status (amount_to_process status final a)
settles_lem deposit completed none a b h = omega int_laws
settles_lem deposit completed (some c) a b h = omega int_laws
settles_lem deposit status final a b h = omega int_laws
settles_lem withdraw completed none a b h = omega int_laws
settles_lem withdraw completed (some c) a b h = absurd h
settles_lem withdraw rejected final a b h = absurd h
settles_lem withdraw status final a b h = omega int_laws
settles_lem ty status final a b h = absurd h

announce-IsSound :
    (act : Move) (user k : ℕ) (processed stored : ℤ) (t : Transaction) (s : Store)
    → IsSound s
    → IsSound (announce act user k processed stored t s)
unfolding record_audit announce
announce-IsSound credit user k processed stored t s h = push_balance_update-IsSound _ _ _ _ _ h
announce-IsSound give_back user k processed stored t s h = push_balance_update-IsSound _ _ _ _ _ h
announce-IsSound keep user k processed stored t s h = h

-- A decision of an administrator keeps a sound store sound (row and wallet ids are unique, and
-- every balance is the sum of what its ledger rows have moved) where it is refused, and where the
-- row is a deposit, or a withdrawal that is neither rejected nor completed with a final amount.
pub admin_process_transaction-IsSound :
    (k : ℕ) (status : TransactionStatus) (final : Option ℤ) (reason : Option String)
    (admin : Option ℕ) (s : Store)
    → IsSound s
    → ((t : Transaction) → find_transaction k s ≡ some t → Settles t.type status final)
    → IsSound (commit s (admin_process_transaction k status final reason admin s))
unfolding admin_process_transaction find_wallet find_transaction set_balance set_transaction
admin_process_transaction-IsSound k status final reason admin s h fits =
    elim (Option-cases (find_transaction k s)) [
      | inl e ↦ rw e h
      | inr (t, e) ↦ elim (Option-cases (find_wallet t.wallet_id s)) [
        | inl e' ↦ rw (e, e') h
        | inr (w, e') ↦ elim (Bool-cases (is_pending t.status)) [
          | inl waits ↦ elim (Bool-cases (is_storable status)) [
            | inr unknown ↦ rw (e, e', waits, unknown) h
            | inl known ↦
                rw (e, e', waits, known, apply_move_lem, amend_lem)
                  (announce-IsSound _ _ _ _ _ _ _ (
                    rw
                      (update-update (λ (r : Transaction). r.id) k _ (amended status final)
                        s.transactions (λ r. refl))
                      (change-AreSound s.wallets s.transactions w t k
                        (moved_balance (move status t.type)
                          (amount_to_process status final t.amount) t.amount)
                        _ h e' e (λ r. refl) refl
                        (rw (is_pending_eq t.status waits)
                          (settles_lem t.type status final t.amount w.real_balance (fits t e))))))
          ]
          | inr done ↦ rw (e, e', done) h
        ]
      ]
    ]

find_wallet-announce :
    (j : ℕ) (act : Move) (user k : ℕ) (processed stored : ℤ) (t : Transaction) (s : Store)
    → find_wallet j (announce act user k processed stored t s) ≡ find_wallet j s
unfolding announce
find_wallet-announce j credit user k processed stored t s =
    rw find_wallet-push (unfold find_wallet record_audit in refl)
find_wallet-announce j give_back user k processed stored t s =
    rw find_wallet-push (unfold find_wallet record_audit in refl)
find_wallet-announce j keep user k processed stored t s = refl

find_transaction-announce :
    (j : ℕ) (act : Move) (user k : ℕ) (processed stored : ℤ) (t : Transaction) (s : Store)
    → find_transaction j (announce act user k processed stored t s) ≡ find_transaction j s
unfolding announce
find_transaction-announce j credit user k processed stored t s =
    rw find_transaction-push (unfold find_transaction record_audit in refl)
find_transaction-announce j give_back user k processed stored t s =
    rw find_transaction-push (unfold find_transaction record_audit in refl)
find_transaction-announce j keep user k processed stored t s = refl

-- The wallets after a decision on a pending row: one balance moves.
process-wallets :
    (k : ℕ) (status : TransactionStatus) (final : Option ℤ) (reason : Option String)
    (admin : Option ℕ) (s : Store) (t : Transaction) (w : Wallet)
    → find_transaction k s ≡ some t
    → find_wallet t.wallet_id s ≡ some w
    → t.status ≡ pending
    → is_storable status ≡ true
    → (j : ℕ)
    → find_wallet j (commit s (admin_process_transaction k status final reason admin s))
      ≡ find_wallet j (
          set_balance t.wallet_id
            (moved_balance (move status t.type) (amount_to_process status final t.amount) t.amount)
            s)
unfolding admin_process_transaction
process-wallets k status final reason admin s t w e e' waits known j =
    rw (e, e', waits, known, apply_move_lem, amend_lem, find_wallet-announce)
      (unfold find_wallet set_balance set_transaction in refl)

abbrev row_view : Option Transaction → Option (TransactionStatus × ℕ)
row_view none = none
row_view (some r) = some (r.status, r.wallet_id)

-- The row after a decision has the new status and its old wallet.
process-row :
    (k : ℕ) (status : TransactionStatus) (final : Option ℤ) (reason : Option String)
    (admin : Option ℕ) (s : Store) (t : Transaction) (w : Wallet)
    → find_transaction k s ≡ some t
    → find_wallet t.wallet_id s ≡ some w
    → t.status ≡ pending
    → is_storable status ≡ true
    → row_view
        (find_transaction k (commit s (admin_process_transaction k status final reason admin s)))
      ≡ some (status, t.wallet_id)
unfolding admin_process_transaction
process-row k status final reason admin s t w e e' waits known =
    rw (e, e', waits, known, apply_move_lem, amend_lem, find_transaction-announce)
      (unfold find_transaction set_balance set_transaction in
        rw
          (update-update (λ (r : Transaction). r.id) k _ (amended status final) s.transactions
            (λ r. refl))
          (ap row_view (find-update_self (λ r. r.id) k _ s.transactions t (λ r. refl) e)))

not_pending-refused :
    (k : ℕ) (status : TransactionStatus) (final : Option ℤ) (reason : Option String)
    (admin : Option ℕ) (s : Store) (r : Transaction) (w : Wallet)
    → find_transaction k s ≡ some r
    → find_wallet r.wallet_id s ≡ some w
    → is_pending r.status ≡ false
    → admin_process_transaction k status final reason admin s ≡ err not_pending
unfolding admin_process_transaction
not_pending-refused k status final reason admin s r w e e' done = rw (e, e', done)

row_view-some :
    (o : Option Transaction) (status : TransactionStatus) (j : ℕ)
    → row_view o ≡ some (status, j)
    → (r : Transaction) × (o ≡ some r) × (r.status ≡ status) × (r.wallet_id ≡ j)
row_view-some none status j h = cc
row_view-some (some r) status j h = (r, refl, ground arith, ground arith)

-- A decided transaction is decided once: after a decision with a status that the database knows,
-- other than PENDING, on a pending row that has its wallet, every further decision on that row is
-- refused as not pending.
pub decided_once :
    (k : ℕ) (status : TransactionStatus) (final : Option ℤ) (reason : Option String)
    (admin : Option ℕ) (s : Store) (t : Transaction) (w : Wallet) (status' : TransactionStatus)
    (final' : Option ℤ) (reason' : Option String) (admin' : Option ℕ)
    → find_transaction k s ≡ some t
    → find_wallet t.wallet_id s ≡ some w
    → t.status ≡ pending
    → is_pending status ≡ false
    → is_storable status ≡ true
    → admin_process_transaction k status' final' reason' admin'
        (commit s (admin_process_transaction k status final reason admin s))
      ≡ err not_pending
decided_once k status final reason admin s t w status' final' reason' admin' e e' waits closed
      known =
    let (r, found, new, own) =
      row_view-some _ status t.wallet_id
        (process-row k status final reason admin s t w e e' waits known) in
    not_pending-refused k status' final' reason' admin' _ r _ found
      (ap (λ j. find_wallet j (commit s (admin_process_transaction k status final reason admin s)))
          own
        ∙ process-wallets k status final reason admin s t w e e' waits known t.wallet_id
        ∙ find_wallet-set_balance t.wallet_id _ s w e')
      (rw new closed)

-- Where the code departs from its own message "Refund": the stored amount of a withdrawal is
-- negative, and the rejection of a pending one adds it to the balance.
pub reject_withdrawal-charges :
    (k : ℕ) (final : Option ℤ) (reason : Option String) (admin : Option ℕ) (s : Store)
    (t : Transaction) (w : Wallet)
    → find_transaction k s ≡ some t
    → find_wallet t.wallet_id s ≡ some w
    → t.status ≡ pending
    → t.type ≡ withdraw
    → find_wallet t.wallet_id (commit s (admin_process_transaction k rejected final reason admin s))
      ≡ some (record w { real_balance = w.real_balance +ℤ t.amount })
reject_withdrawal-charges k final reason admin s t w e e' waits out =
    process-wallets k rejected final reason admin s t w e e' waits refl t.wallet_id
    ∙ rw out (find_wallet-set_balance t.wallet_id _ s w e')
