-- ===== src/Timers/Defs.antt =====
-- `scheduleTimeout` and `cancelTimeout`. The id of a job, `timer:{tableId}:{Date.now()}`, is its table
-- and its moment, and Redis keeps for a table the moment of its job. The queue adds no second job
-- under an id. Whether `job.remove()` succeeds is a parameter; its error is caught.
use cardgames.Prelude.{ℕ, Bool, ◌&&◌, Option, none, some, List, [], ◌∷◌, ◌==◌, if◌then◌else◌}
use cardgames.Store.Table.{find}

pub record TimerJob : Type 0 where
  pub table : ℕ
  pub moment : ℕ
  pub seat : ℕ
  pub delay : ℕ

-- The delayed jobs, and the keys `timer:job:{tableId}`.
pub record Timers : Type 0 where
  pub queue : List TimerJob
  pub tracked : ℕ → Option ℕ

abbrev pub has_id : ℕ → ℕ → TimerJob → Bool
has_id table moment job = job.table == table && job.moment == moment

unfoldable pub remove_job : ℕ → ℕ → List TimerJob → List TimerJob
remove_job table moment [] = []
remove_job table moment (job ∷ jobs) =
    let rest = remove_job table moment jobs in if has_id table moment job then rest else job ∷ rest

abbrev pub set_key : ℕ → Option ℕ → (ℕ → Option ℕ) → ℕ → Option ℕ
set_key table value keys t = if t == table then value else keys t

abbrev pub add_job : TimerJob → List TimerJob → List TimerJob
add_job job jobs = elim (find (has_id job.table job.moment) jobs) [
  | some old ↦ jobs
  | none ↦ job ∷ jobs
]

module _ (removable : ℕ → ℕ → Bool) where
  unfoldable pub cancel_timeout : ℕ → Timers → Timers
  unfolding remove_job
  cancel_timeout table s = elim (s.tracked table) [
    | none ↦ s
    | some moment ↦ record {
      queue = if removable table moment then remove_job table moment s.queue else s.queue;
      tracked = set_key table none s.tracked;
    }
  ]

  -- The last argument but one is the present moment.
  unfoldable pub schedule_timeout : ℕ → ℕ → ℕ → ℕ → Timers → Timers
  unfolding cancel_timeout
  schedule_timeout table seat duration_ms now s =
      let cancelled = cancel_timeout table s in
      record {
        queue =
            add_job (record { table = table; moment = now; seat = seat; delay = duration_ms })
              cancelled.queue;
        tracked = set_key table (some now) cancelled.tracked;
      }
