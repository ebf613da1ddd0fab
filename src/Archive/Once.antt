-- ===== src/Archive/Once.antt =====
-- A job that is delivered again.
use cardgames.Prelude.{ap, ℕ, ◌≡◌, refl, ◌∙◌, inl, inr, false, some, ==_refl, Option-cases}
use cardgames.Store.{Result, ok, err}
use cardgames.Store.Outcome.{Ensures, Ensures-bind, Ensures-nothing, Ensures-ok}
use cardgames.Store.Table.{find}
use cardgames.Archive.Defs.{
  Archive, HandHistory, HandJob, history_of, find_hand, archive_hand, try_archive, process,
  count_participants, take_rake, audit_user,
}

-- What the transaction ensures and what held before hold of what the attempt leaves.
pub try_archive-keeps :
    (P : Archive → Type 0) (a : Archive) (r : Result Archive)
    → P a
    → Ensures P r
    → P (try_archive a r).0
try_archive-keeps P a (ok d) p k = Ensures-ok P (ok d) d refl k
try_archive-keeps P a (err e) p k = p

module _ (f : ℕ → ℕ → ℕ → ℕ) (job : HandJob) where
  archive_hand-known :
      (new_id : ℕ) (a : Archive)
      → Ensures
          (λ d. (h : HandHistory) × (find_hand job.hand_id d ≡ some h))
          (archive_hand f job new_id a)
  unfolding archive_hand find_hand find Ensures
  archive_hand-known new_id a =
      Ensures-bind _ _ (count_participants f job job.participants a.house) _ (Ensures-nothing _)
        λ r _. Ensures-bind _ _ (take_rake job new_id r.1) _ (Ensures-nothing _) λ h _.
          Ensures-bind _ _ (audit_user job.participants) _ (Ensures-nothing _)
            λ u _. (history_of job, rw (==_refl job.hand_id) refl)

  process-known :
      (new_id : ℕ) (a : Archive) (h : HandHistory)
      → find_hand job.hand_id a ≡ some h
      → process f "archive-hand" job new_id a ≡ (a, false)
  unfolding process
  process-known new_id a h e = rw e refl

  process-remembers :
      (new_id : ℕ) (a : Archive)
      → (process f "archive-hand" job new_id a).1 ≡ false
      → (h : HandHistory) × (find_hand job.hand_id (process f "archive-hand" job new_id a).0
          ≡ some h)
  unfolding process
  process-remembers new_id a fine = elim (Option-cases (find_hand job.hand_id a)) [
    | inr (h, e) ↦ (h, rw (e, e) refl)
    | inl e ↦
        rw e (outcome (archive_hand f job new_id a) (archive_hand-known new_id a) (rw e at fine))
  ]
    where
      outcome :
          (r : Result Archive)
          → Ensures (λ d. (h : HandHistory) × (find_hand job.hand_id d ≡ some h)) r
          → (try_archive a r).1 ≡ false
          → (h : HandHistory) × (find_hand job.hand_id (try_archive a r).0 ≡ some h)
      outcome (ok d) k q = Ensures-ok _ (ok d) d refl k
      outcome (err e) k q = cc

-- A hand is archived once: where the job does not throw, a later job for the same hand, with whatever
-- winners, pot and rake, changes nothing and does not throw.
pub process-once :
    (f : ℕ → ℕ → ℕ → ℕ) (job again : HandJob) (new_id other_id : ℕ) (a : Archive)
    → again.hand_id ≡ job.hand_id
    → (process f "archive-hand" job new_id a).1 ≡ false
    → let done = (process f "archive-hand" job new_id a).0 in
      process f "archive-hand" again other_id done ≡ (done, false)
process-once f job again new_id other_id a same fine =
    let (h, e) = process-remembers f job new_id a fine in
    process-known f again other_id _ h
      (ap (λ k. find_hand k (process f "archive-hand" job new_id a).0) same ∙ e)
