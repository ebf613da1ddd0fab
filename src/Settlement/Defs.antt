-- ===== src/Settlement/Defs.antt =====
-- The jobs of the queue `cashout-settlement`, and the worker that runs them.
use cardgames.Prelude.{
  ℕ, suc, Bool, true, false, not, ◌&&◌, Option, none, some, List, [], ◌∷◌, ◌++◌, ℤ, pos, leb_ℤ,
  if◌then◌else◌,
}
use Prim.Native.String.{String}
use text.Mathlib.Text.{◌==◌ as same_text}
use cardgames.Store.{Store, Reference}
use cardgames.Store.Table.{find}
use cardgames.Wallet.CashOut.{settle_cash_out}

-- The id of a table, and its text.
pub record TableId : Type 0 where
  pub number : ℕ
  pub text : String

-- A job. A field that is missing, empty or of another type is `none`; the reference is absent in
-- the jobs of the cleanup and of the reaper. `job_id` has the parts of the id between its colons; no
-- id of a user or of a table has a colon.
pub record CashOutJob : Type 0 where
  pub job_id : List String
  pub name : String
  pub user_id : Option ℕ
  pub amount : Option ℤ
  pub table_id : Option TableId
  pub reference_id : Option Reference
  pub source : String

abbrev pub same_parts : List String → List String → Bool
same_parts [] [] = true
same_parts (a ∷ rest) (b ∷ others) = same_text a b && same_parts rest others
same_parts _ _ = false

-- `cashoutQueue.add`. The queue refuses the ids that it does not accept, and the callers catch its
-- error; a job whose id is known is not added again.
unfoldable pub enqueue_job : (List String → Bool) → CashOutJob → List CashOutJob → List CashOutJob
enqueue_job accepts job queue =
    if accepts job.job_id
    then elim (find (λ (known : CashOutJob). same_parts known.job_id job.job_id) queue) [
      | some known ↦ queue
      | none ↦ queue ++ (job ∷ [])
    ]
    else queue

-- The worker. `settleCashOut` throws nothing, so that the branches that catch are never taken.
unfoldable pub process_cash_out : CashOutJob → ℕ → Store → Store
process_cash_out job new_id s =
    let run : ℕ → ℤ → TableId → Store = λ user amount table.
      settle_cash_out user amount table.number table.text job.reference_id new_id s in
    let checked : ℕ → ℤ → Store =
      λ user amount. elim job.table_id [ none ↦ s | some table ↦ run user amount table ] in
    if not (same_text job.name "settle-cashout") then s else elim job.user_id [
      | none ↦ s
      | some user ↦ elim job.amount [
        | none ↦ s
        | some amount ↦ if leb_ℤ amount (pos 0) then s else checked user amount
      ]
    ]

-- The worker takes the jobs in the queue's order; the database numbers the new rows.
unfoldable pub run_jobs : List CashOutJob → ℕ → Store → Store
unfolding process_cash_out
run_jobs [] new_id s = s
run_jobs (job ∷ jobs) new_id s = run_jobs jobs (suc new_id) (process_cash_out job new_id s)
