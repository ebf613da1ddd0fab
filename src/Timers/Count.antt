-- ===== src/Timers/Count.antt =====
-- How many delayed jobs a table has.
use cardgames.Prelude.{
  ℕ, ◌+◌, ◌≤◌, ◌≡◌, ◌≢◌, refl, Bool, false, not, ◌&&◌, Option, none, some, List, [], ◌∷◌, arith,
  ◌==◌, ==_refl, if◌then◌else◌,
}
use cardgames.Store.Table.{find}
use cardgames.Timers.Defs.{TimerJob, Timers, has_id, remove_job, add_job}

-- The delayed jobs of a table, and those of them that the key does not name.
unfoldable pub pending : ℕ → List TimerJob → ℕ
pending table [] = 0
pending table (job ∷ jobs) = (if job.table == table then 1 else 0) + pending table jobs

abbrev pub is_named : Option ℕ → ℕ → Bool
is_named none moment = false
is_named (some m) moment = moment == m

unfoldable pub untracked : ℕ → Option ℕ → List TimerJob → ℕ
untracked table key [] = 0
untracked table key (job ∷ jobs) =
    (if job.table == table && not (is_named key job.moment) then 1 else 0)
    + untracked table key jobs

-- Every delayed job of a table is the one that its key names, and there is one at most.
pub record IsSingle (s : Timers) : Type 0 where
  pub known : (table : ℕ) → untracked table (s.tracked table) s.queue ≡ 0
  pub single : (table : ℕ) → pending table s.queue ≤ 1

pub untracked-none : (t : ℕ) (q : List TimerJob) → untracked t none q ≡ pending t q
unfolding untracked pending
untracked-none t [] = refl
untracked-none t (j ∷ q) = ground (arith, untracked-none t q)

-- The removal of a table's named job leaves the others of the table.
pub remove-own :
    (t m : ℕ) (q : List TimerJob) → pending t (remove_job t m q) ≡ untracked t (some m) q
unfolding untracked pending remove_job
remove-own t m [] = refl
remove-own t m (j ∷ q) = ground (arith, remove-own t m q)

remove-other : (t m u : ℕ) (q : List TimerJob) → u ≢ t → pending u (remove_job t m q) ≡ pending u q
unfolding pending remove_job
remove-other t m u [] ne = refl
remove-other t m u (j ∷ q) ne = ground (arith, remove-other t m u q ne)

pub remove-untracked :
    (t m u : ℕ) (key : Option ℕ) (q : List TimerJob)
    → u ≢ t
    → untracked u key (remove_job t m q) ≡ untracked u key q
unfolding untracked remove_job
remove-untracked t m u key [] ne = refl
remove-untracked t m u key (j ∷ q) ne = ground (arith, remove-untracked t m u key q ne)

pub remove-pending_le : (t m u : ℕ) (q : List TimerJob) → pending u (remove_job t m q) ≤ pending u q
unfolding pending remove_job
remove-pending_le t m u [] = omega arith
remove-pending_le t m u (j ∷ q) = ground (arith, remove-pending_le t m u q)

pub remove-untracked_le :
    (t m u : ℕ) (key : Option ℕ) (q : List TimerJob)
    → untracked u key (remove_job t m q) ≤ untracked u key q
unfolding untracked remove_job
remove-untracked_le t m u key [] = omega arith
remove-untracked_le t m u key (j ∷ q) = ground (arith, remove-untracked_le t m u key q)

absent : (t m : ℕ) (q : List TimerJob) → pending t q ≡ 0 → find (has_id t m) q ≡ none
unfolding pending find
absent t m [] e = refl
absent t m (j ∷ q) e = ground (arith, absent t m q)

-- A job of a table without delayed jobs is new.
pub add-new :
    (job : TimerJob) (q : List TimerJob) → pending job.table q ≡ 0 → add_job job q ≡ job ∷ q
add-new job q e = rw (add_job, absent job.table job.moment q e) refl

untracked_le : (t : ℕ) (key : Option ℕ) (q : List TimerJob) → untracked t key q ≤ pending t q
unfolding untracked pending
untracked_le t key [] = omega arith
untracked_le t key (j ∷ q) = ground (arith, untracked_le t key q)

module _ (t now seat delay : ℕ) (q : List TimerJob) where
  abbrev pub job : TimerJob
  job = record { table = t; moment = now; seat = seat; delay = delay }

  pub added-known : pending t q ≡ 0 → untracked t (some now) (job ∷ q) ≡ 0
  unfolding untracked
  added-known clear = rw (==_refl t, ==_refl now) (omega (arith, untracked_le t (some now) q))

  pub added-known_other :
      (u : ℕ) (key : Option ℕ) → (u == t) ≡ false → untracked u key (job ∷ q) ≡ untracked u key q
  unfolding untracked
  added-known_other u key other = ground arith

  pub added-single : pending t q ≡ 0 → pending t (job ∷ q) ≤ 1
  unfolding pending
  added-single clear = rw (==_refl t) (omega arith)

  pub added-single_other : (u : ℕ) → (u == t) ≡ false → pending u (job ∷ q) ≡ pending u q
  unfolding pending
  added-single_other u other = ground arith
