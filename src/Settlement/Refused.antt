-- ===== src/Settlement/Refused.antt =====
-- What becomes of the jobs of the cleanup and of the reaper in the queue.
use cardgames.Prelude.{
  ℕ, ◌<◌, ◌≡◌, refl, ◌∙◌, inl, inr, Bool, true, false, Option, List, [], ◌∷◌, arith, pos, length,
  ltb, ltb_ℤ, Bool-cases, Option-cases,
}
use Prim.Native.String.{String}
use text.Mathlib.Text.{starts_with}
use cardgames.Settlement.Defs.{TableId, CashOutJob, enqueue_job}
use cardgames.Settlement.Cleanup.{
  PlayerData, Field, SnapshotPlayer, CleanupResult, snapshot, refund_job, enqueue_refunds,
  cleanup_table, cleanup_stale_tables,
}
use cardgames.Settlement.Reaper.{
  should_kick, World, Room, reaper_job, enqueue_chips, kick, sweep_seat, sweep_fields, sweep_table,
  sweep,
}

-- What the library of the queue documents of an id with colons: it is refused, but for three parts,
-- which older jobs have.
abbrev pub RefusesLong : (List String → Bool) → Type 0
RefusesLong accepts = (id : List String) → 3 < length id → accepts id ≡ false

refused :
    (accepts : List String → Bool) (refuses : RefusesLong accepts) (job : CashOutJob)
    (queue : List CashOutJob)
    → 3 < length job.job_id
    → enqueue_job accepts job queue ≡ queue
unfolding enqueue_job
refused accepts refuses job queue long = rw (enqueue_job, refuses job.job_id long) refl

-- Redis after the scripts alone.
unfoldable pub cleaned :
    {Redis : Type 0}
    → (TableId → Redis → Option CleanupResult × Redis)
    → List TableId
    → Redis
    → Redis
cleaned force_cleanup [] r = r
cleaned force_cleanup (t ∷ ts) r = cleaned force_cleanup ts (force_cleanup t r).1

module _ {Redis : Type 0} (players_of : TableId → Redis → List Field)
    (force_cleanup : TableId → Redis → Option CleanupResult × Redis) (id_text : ℕ → String)
    (date_now : TableId → SnapshotPlayer → String) (accepts : List String → Bool)
    (refuses : RefusesLong accepts) where
  refunds_refused :
      (t : TableId) (players : List SnapshotPlayer) (queue : List CashOutJob)
      → enqueue_refunds players_of force_cleanup id_text date_now accepts t players queue ≡ queue
  unfolding enqueue_refunds
  refunds_refused t [] queue = refl
  refunds_refused t (p ∷ ps) queue =
      rw (refused accepts refuses (refund_job id_text date_now t p) queue (omega arith))
        (refunds_refused t ps queue)

  table_refused :
      (t : TableId) (r : Redis) (queue : List CashOutJob)
      → cleanup_table players_of force_cleanup id_text date_now accepts t (r, queue)
        ≡ ((force_cleanup t r).1, queue)
  unfolding cleanup_table
  table_refused t r queue = elim (Option-cases (force_cleanup t r).0) [
    | inl e ↦ rw (cleanup_table, e) refl
    | inr (c, e) ↦ elim (Bool-cases (ltb 0 c.players_refunded)) [
      | inl some_one ↦
          rw (cleanup_table, e, some_one, refunds_refused t (snapshot (players_of t r)) queue) refl
      | inr no_one ↦ rw (cleanup_table, e, no_one) refl
    ]
  ]

  -- The cleanup loses the chips: where the queue refuses ids of more than three parts, as its library
  -- does, the cleanup runs its script on every table and adds no job to the queue, whoever sits there
  -- and whatever the script answers.
  pub cleanup_stale_tables-refused :
      (ts : List TableId) (r : Redis) (queue : List CashOutJob)
      → cleanup_stale_tables players_of force_cleanup id_text date_now accepts ts (r, queue)
        ≡ (cleaned force_cleanup ts r, queue)
  unfolding cleanup_stale_tables cleaned
  cleanup_stale_tables-refused [] r queue = refl
  cleanup_stale_tables-refused (t ∷ ts) r queue =
      rw (cleanup_stale_tables, table_refused t r queue)
        (cleanup_stale_tables-refused ts (force_cleanup t r).1 queue)

module _ {Redis : Type 0} (world : World Redis) (refuses : RefusesLong world.accepts) where
  chips_refused :
      (t : TableId) (f : Field) (p : PlayerData) (queue : List CashOutJob)
      → enqueue_chips world t f p queue ≡ queue
  chips_refused t f p queue = elim (Bool-cases (ltb_ℤ (pos 0) p.chips)) [
    | inr nothing ↦ rw nothing refl
    | inl something ↦ rw something (
        refused world.accepts refuses
          (reaper_job world.id_text (world.date_now t f.seat_number) t p) queue (omega arith))
  ]

  kick-queue :
      (t : TableId) (f : Field) (p : PlayerData) (d : ℕ) (room : Room Redis)
      → (kick world t f p d room).queue ≡ room.queue
  unfolding kick
  kick-queue t f p d room =
      elim (Option-cases (world.leave_table t f.seat_number p.id room.redis).0) [
        | inl e ↦ rw (kick, e) refl
        | inr (true, e) ↦ rw (kick, e) (chips_refused t f p room.queue)
        | inr (false, e) ↦ rw (kick, e) refl
      ]

  seat-queue :
      (now : ℕ) (t : TableId) (f : Field) (room : Room Redis)
      → (sweep_seat world now t f room).queue ≡ room.queue
  unfolding sweep_seat
  seat-queue now t f room = elim (Bool-cases (starts_with f.key "seat_")) [
    | inr other ↦ rw (sweep_seat, other) refl
    | inl seat ↦ elim (Option-cases f.value) [
      | inl e ↦ rw (sweep_seat, seat, e) refl
      | inr (p, e) ↦
          elim (Option-cases (
            should_kick now p (world.last_seen t f.seat_number room.redis)
              (world.has_active_socket t f.seat_number))) [
                | inl stays ↦ rw (sweep_seat, seat, e, stays) refl
                | inr (d, goes) ↦ rw (sweep_seat, seat, e, goes) (kick-queue t f p d room)
              ]
    ]
  ]

  fields-queue :
      (now : ℕ) (t : TableId) (fs : List Field) (room : Room Redis)
      → (sweep_fields world now t fs room).queue ≡ room.queue
  unfolding sweep_fields
  fields-queue now t [] room = refl
  fields-queue now t (f ∷ fs) room =
      fields-queue now t fs (sweep_seat world now t f room) ∙ seat-queue now t f room

  -- The reaper loses the chips: where the queue refuses ids of more than three parts, as its library
  -- does, a sweep adds no job to the queue, however many players it removes and whatever they held.
  pub sweep-refused :
      (now : ℕ) (tables : List TableId) (room : Room Redis)
      → (sweep world now tables room).queue ≡ room.queue
  unfolding sweep sweep_table
  sweep-refused now [] room = refl
  sweep-refused now (t ∷ ts) room =
      sweep-refused now ts (sweep_table world now t room)
      ∙ fields-queue now t (world.players_of t room.redis) room
