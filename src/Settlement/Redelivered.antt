-- ===== src/Settlement/Redelivered.antt =====
-- A job that the queue delivers more than once.
use cardgames.Prelude.{
  ℕ, ◌≡◌, refl, ◌∙◌, ap, inl, inr, true, none, some, [], ◌∷◌, ℤ, pos, ◌+ℤ◌, ◌<ℤ◌, int_laws,
  parts_of_eq, ◌==◌, ==_iff, if◌then◌else◌, Bool-cases,
}
use cardgames.Store.{Store, Wallet, Reference, cash_out, find_wallet_of}
use cardgames.Wallet.Ledger.{IsSound}
use cardgames.Wallet.Effects.{IsNew}
use cardgames.Wallet.Session.{settle_cash_out-once}
use cardgames.Wallet.CashOut.{settle_cash_out}
use cardgames.Settlement.Defs.{CashOutJob, process_cash_out, run_jobs}
use cardgames.Settlement.Credits.{
  AllBelow, NoShield, owed, owed_by, credited, process_cases, run_jobs-credits,
}

-- The shield: in a sound store, where a job with a reference owes a user with a wallet something
-- and is new in its reference and its row id, any job with the same reference that the worker runs
-- after it changes nothing, the same job included.
process_cash_out-once :
    (job again : CashOutJob) (new_id new_id' : ℕ) (s : Store) (user : ℕ) (w : Wallet)
    (r : Reference)
    → IsSound s
    → find_wallet_of user s ≡ some w
    → pos 0 <ℤ owed_by user job
    → job.reference_id ≡ some r
    → again.reference_id ≡ some r
    → IsNew new_id cash_out (some r) s
    → let done = process_cash_out job new_id s in process_cash_out again new_id' done ≡ done
process_cash_out-once job again new_id new_id' s user w r h e owes shield shield' new =
    elim (process_cases job new_id s) [
      | inl (same, nothing) ↦ absurd (no_debt (nothing user))
      | inr (payee, amount, table, same, p, due) ↦
          let own : payee ≡ user = (==_iff payee user).0 (to_user payee amount (due user)) in
          let so : process_cash_out job new_id s
              ≡ settle_cash_out payee amount table.number table.text (some r) new_id s =
            same ∙ rw shield refl in
          elim (process_cases again new_id' (process_cash_out job new_id s)) [
            | inl (idle, nothing) ↦ idle
            | inr (payee', amount', table', same', p', due') ↦
                same'
                ∙ rw (shield', so)
                    (settle_cash_out-once payee amount table.number table.text r new_id s w payee'
                      amount' table'.number table'.text new_id' h (rw own e) p new)
          ]
    ]
  where
    no_debt : owed_by user job ≡ pos 0 → ⊥
    no_debt q = omega (int_laws, parts_of_eq _ _ q)

    to_user :
        (payee : ℕ) (amount : ℤ)
        → owed_by user job ≡ (if payee == user then amount else pos 0)
        → (payee == user) ≡ true
    to_user payee amount q = elim (Bool-cases (payee == user)) [
      | inl own ↦ own
      | inr other ↦ absurd (no_debt (q ∙ rw other refl))
    ]

-- Without the shield: in a sound store whose rows have ids below the next new one, a job without a
-- reference that is delivered twice pays its user twice.
run_jobs-twice :
    (job : CashOutJob) (new_id : ℕ) (s : Store) (user : ℕ) (w : Wallet)
    → IsSound s
    → AllBelow new_id s.transactions
    → job.reference_id ≡ none
    → find_wallet_of user s ≡ some w
    → find_wallet_of user (run_jobs (job ∷ job ∷ []) new_id s)
      ≡ some (credited (owed_by user job +ℤ owed_by user job) w)
run_jobs-twice job new_id s user w h b bare e =
    run_jobs-credits (job ∷ job ∷ []) new_id s user w h b (unfold NoShield in (bare, (bare, tt))) e
    ∙ ap (λ a. some (credited a w)) (unfold owed in (omega int_laws))
