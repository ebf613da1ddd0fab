-- ===== src/Archive/Rake.antt =====
-- The rake in the wallets and their ledger.
use cardgames.Prelude.{
  ℕ, ◌*◌, ◌≡◌, refl, ◌∙◌, inl, inr, true, none, some, List, [], ◌∷◌, pos, ◌+ℤ◌, ◌<◌, lt→ltb, ltb,
  Bool-cases, Option-cases, ◌==◌,
}
use Prim.Native.String.{String}
use text.Mathlib.Text.{◌==◌ as same_text}
use cardgames.Store.{
  Store, Wallet, Transaction, or_throw, missing_relation, find_wallet_of, create_transaction, rake,
  find_wallet,
}
use cardgames.Store.Outcome.{Ensures, Ensures-bind, Ensures-nothing, or_throw_lem, Returns}
use cardgames.Store.Table.{find}
use cardgames.Wallet.Base.{set_balance}
use cardgames.Wallet.Ledger.{IsSound}
use cardgames.Wallet.Posting.{
  post-AreSound, create_transaction_lem, find_own, find_wallet-set_balance,
}
use cardgames.Wallet.Effects.{IsNew, create_transaction-IsNew}
use cardgames.Users.Defs.{User, House, find_user}
use cardgames.Archive.Once.{try_archive-keeps}
use cardgames.Archive.Defs.{
  Archive, HandJob, HandPlayerResult, Participant, count_hand, count_participants, find_treasury,
  take_rake, rake_row, credit_rake, archive_hand, audit_user, process, find_hand,
}

create_transaction-Ensures :
    (row : Transaction) (base : Store)
    → ((find (λ t. t.id == row.id) base.transactions ≡ none)
        → IsSound (record base { transactions = row ∷ base.transactions }))
    → Ensures (λ (r : Transaction × Store). IsSound r.1) (create_transaction row base)
unfolding Ensures
create_transaction-Ensures row base h = elim (create_transaction_lem row base) [
  | inl e ↦ rw e tt
  | inr (fresh, e) ↦ rw e (h fresh)
]

credit_rake-IsSound :
    (job : HandJob) (new_id : ℕ) (s : Store) (u : User)
    → IsSound s
    → Ensures IsSound (credit_rake job new_id s u)
unfolding credit_rake set_balance Ensures
credit_rake-IsSound job new_id s u h =
    Ensures-bind _ _ (or_throw (find_wallet_of u.id s) missing_relation) _ (or_throw_lem _ _) λ w e.
      Ensures-bind (λ (r : Transaction × Store). IsSound r.1) _ _ _
        (create_transaction-Ensures _ _ λ fresh.
          post-AreSound s.wallets s.transactions h w (λ b. b +ℤ pos (job.rake * 100)) _
            (find_own u.id s w h e) refl fresh refl)
        λ r p. p

take_rake-IsSound :
    (job : HandJob) (new_id : ℕ) (h : House)
    → IsSound h.store
    → Ensures (λ (g : House). IsSound g.store) (take_rake job new_id h)
unfolding take_rake Ensures
take_rake-IsSound job new_id h p = elim (Bool-cases (ltb 0 job.rake)) [
  | inr e ↦ rw e p
  | inl e ↦ elim (Option-cases (find_treasury h)) [
    | inl e' ↦ rw (e, e') p
    | inr (u, e') ↦
        rw (e, e')
          (Ensures-bind IsSound _ (credit_rake job new_id h.store u) _
            (credit_rake-IsSound job new_id h.store u p) λ s q. q)
  ]
]

module _ (f : ℕ → ℕ → ℕ → ℕ) (job : HandJob) where
  count_hand-store :
      (p : Participant) (id : ℕ) (h : House)
      → Ensures (λ (g : House). g.store ≡ h.store) (count_hand f job p id h)
  unfolding count_hand Ensures
  count_hand-store p id h = elim (Option-cases (find_user id h)) [
    | inl e ↦ rw (count_hand, e) tt
    | inr (u, e) ↦ rw (count_hand, e) refl
  ]

  count_participants-store :
      (ps : List Participant) (h : House)
      → Ensures
          (λ (r : List HandPlayerResult × House). r.1.store ≡ h.store)
          (count_participants f job ps h)
  unfolding count_participants Ensures
  count_participants-store [] h = refl
  count_participants-store (p ∷ ps) h = elim (Option-cases p.id) [
    | inl e ↦ rw (count_hand, e) tt
    | inr (id, e) ↦ rw e (
        Ensures-bind _ _ (count_hand f job p id h) _ (count_hand-store p id h) λ g q.
          Ensures-bind _ _ (count_participants f job ps g) _ (count_participants-store ps g)
            λ r k. k ∙ q)
  ]

  archive_hand-IsSound :
      (new_id : ℕ) (a : Archive)
      → IsSound a.house.store
      → Ensures (λ (d : Archive). IsSound d.house.store) (archive_hand f job new_id a)
  unfolding archive_hand Ensures
  archive_hand-IsSound new_id a h =
      Ensures-bind _ _ (count_participants f job job.participants a.house) _
        (count_participants-store job.participants a.house)
        λ r q.
          Ensures-bind (λ (g : House). IsSound g.store) _ (take_rake job new_id r.1) _
            (take_rake-IsSound job new_id r.1 (rw q h))
            λ g p. Ensures-bind _ _ (audit_user job.participants) _ (Ensures-nothing _) λ u _. p

-- The archive of a hand keeps the wallets and their ledger sound, whether it is archived, known
-- already, or refused, so that the job throws.
pub process-IsSound :
    (f : ℕ → ℕ → ℕ → ℕ) (name : String) (job : HandJob) (new_id : ℕ) (a : Archive)
    → IsSound a.house.store
    → IsSound (process f name job new_id a).0.house.store
unfolding process
process-IsSound f name job new_id a h = elim (Bool-cases (same_text name "archive-hand")) [
  | inr e ↦ rw e h
  | inl e ↦ elim (Option-cases (find_hand job.hand_id a)) [
    | inr (k, q) ↦ rw (e, q) h
    | inl q ↦
        rw (e, q)
          (try_archive-keeps (λ (d : Archive). IsSound d.house.store) a
            (archive_hand f job new_id a) h (archive_hand-IsSound f job new_id a h))
  ]
]

-- The house gets its rake: where the user HOUSE_TREASURY has a wallet, in a sound store in which the
-- new ledger row has a new id, the credit of a positive rake succeeds and raises that wallet by
-- exactly the rake.
take_rake-credits :
    (job : HandJob) (new_id : ℕ) (h : House) (u : User) (w : Wallet)
    → IsSound h.store
    → find_treasury h ≡ some u
    → find_wallet_of u.id h.store ≡ some w
    → IsNew new_id rake none h.store
    → 0 < job.rake
    → Returns
        (λ (g : House).
          find_wallet w.id g.store
          ≡ some (record w { real_balance = w.real_balance +ℤ pos (job.rake * 100) }))
        (take_rake job new_id h)
unfolding take_rake credit_rake Returns
take_rake-credits job new_id h u w sound e found new positive =
    rw
      (
        taken,
        e,
        found,
        create_transaction-IsNew (rake_row job new_id w)
            (set_balance w.id (λ b. b +ℤ pos (job.rake * 100)) h.store) (unfold set_balance in new),
      )
      (
        _,
        refl,
        unfold find_wallet in
            find_wallet-set_balance w.id (λ b. b +ℤ pos (job.rake * 100)) h.store w
              (find_own u.id h.store w sound found),
      )
  where
    taken : ltb 0 job.rake ≡ true
    taken = lt→ltb 0 job.rake positive
