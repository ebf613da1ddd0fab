-- ===== src/Settlement/Reaper.antt =====
-- The removal of absent players: `sweepTable`. Moments are milliseconds, and the moments in a seat
-- seconds. Redis and its script `leave_table` are parameters; the broadcasts, the chat message and
-- the log are left out, and the plain reads and deletions of Redis do not throw.
use cardgames.Prelude.{
  ℕ, ◌+◌, ◌-◌, ◌*◌, Bool, ◌&&◌, ◌||◌, Option, none, some, List, [], ◌∷◌, ℤ, pos, ltb_ℤ, leb,
  if◌then◌else◌,
}
use Prim.Native.String.{String}
use text.Mathlib.Text.{starts_with, ◌==◌ as same_text}
use cardgames.Settlement.Defs.{TableId, CashOutJob, enqueue_job}
use cardgames.Settlement.Cleanup.{PlayerData, Field}

abbrev pub crash_threshold_ms : ℕ
crash_threshold_ms = 60000

abbrev pub afk_threshold_ms : ℕ
afk_threshold_ms = 10 * 60000

-- The time since a moment, if it has reached the threshold.
abbrev pub elapsed : ℕ → ℕ → ℕ → Option ℕ
elapsed threshold since now = if leb (since + threshold) now then some (now - since) else none

-- Rule A: the seat is offline, for a minute or without a trace. The last two arguments are the
-- heartbeat of the seat and whether a session holds it.
unfoldable pub crash_rule : ℕ → PlayerData → Option ℕ → Bool → Option ℕ
crash_rule now p last_seen has_active_socket =
    if same_text p.connection "offline"
    then elim p.disconnected_at [
      | some at ↦ elapsed crash_threshold_ms (at * 1000) now
      | none ↦ elim last_seen [
        | some seen ↦ elapsed crash_threshold_ms seen now
        | none ↦ if has_active_socket then none else some 0
      ]
    ]
    else none

-- Rule B: the player is out of the game for ten minutes.
unfoldable pub afk_rule : ℕ → PlayerData → Option ℕ
afk_rule now p =
    if same_text p.status "sitting_out"
    then elim p.sit_out_start [
      | some start ↦ elapsed afk_threshold_ms (start * 1000) now
      | none ↦ none
    ]
    else none

-- `shouldKick`, with the duration.
unfoldable pub should_kick : ℕ → PlayerData → Option ℕ → Bool → Option ℕ
unfolding crash_rule afk_rule
should_kick now p last_seen has_active_socket =
    elim (crash_rule now p last_seen has_active_socket) [
      | some duration ↦ some duration
      | none ↦ afk_rule now p
    ]

-- The audit of a kick.
pub record Kick : Type 0 where
  pub user_id : Option ℕ
  pub table : TableId
  pub seat : ℕ
  pub duration_offline : ℕ
  pub chips_at_kick : ℤ

-- The id in a text; a missing one reads `undefined`.
abbrev pub id_part : (ℕ → String) → Option ℕ → String
id_part id_text none = "undefined"
id_part id_text (some id) = id_text id

-- The text of a user's id, and the moment.
abbrev pub reaper_job : (ℕ → String) → String → TableId → PlayerData → CashOutJob
reaper_job id_text moment table p = record {
  job_id = "reaper" ∷ id_part id_text p.id ∷ table.text ∷ moment ∷ [];
  name = "settle-cashout";
  user_id = p.id;
  amount = some p.chips;
  table_id = some table;
  reference_id = none;
  source = "player_reaper";
}

-- Players who would play a hand.
unfoldable pub active_after_kick : List Field → ℕ
active_after_kick [] = 0
active_after_kick (f ∷ fs) =
    let rest = active_after_kick fs in
    if starts_with f.key "seat_"
    then elim f.value [
      | none ↦ rest
      | some p ↦
          if same_text p.status "waiting" || same_text p.status "active" then 1 + rest else rest
    ]
    else rest

-- What the reaper reads and calls.
pub record World (Redis : Type 0) : Type 0 where
  pub players_of : TableId → Redis → List Field
  pub phase : TableId → Redis → String
  pub last_seen : TableId → ℕ → Redis → Option ℕ
  pub has_active_socket : TableId → ℕ → Bool
  pub leave_table : TableId → ℕ → Option ℕ → Redis → Option Bool × Redis
  pub forget : TableId → ℕ → Option ℕ → Redis → Redis
  pub id_text : ℕ → String
  pub date_now : TableId → ℕ → String
  pub accepts : List String → Bool
  pub recorded : Kick → Bool

-- Redis, the queue, the audits, and the tables whose next hand is scheduled.
pub record Room (Redis : Type 0) : Type 0 where
  pub redis : Redis
  pub queue : List CashOutJob
  pub audits : List Kick
  pub next_hands : List TableId

module _ {Redis : Type 0} (world : World Redis) where
  -- The chips of a removed player go to the queue.
  abbrev pub enqueue_chips : TableId → Field → PlayerData → List CashOutJob → List CashOutJob
  enqueue_chips table f p queue =
      let moment = world.date_now table f.seat_number in
      if ltb_ℤ (pos 0) p.chips
      then enqueue_job world.accepts (reaper_job world.id_text moment table p) queue
      else queue

  -- The audit is not awaited; its error is caught.
  abbrev pub note_kick : Kick → List Kick → List Kick
  note_kick k audits = if world.recorded k then k ∷ audits else audits

  abbrev pub schedule_hand : TableId → Redis → List TableId → List TableId
  schedule_hand table redis starts =
      let phase = world.phase table redis in
      if leb 2 (active_after_kick (world.players_of table redis))
        && (same_text phase "waiting" || same_text phase "showdown")
      then table ∷ starts
      else starts

  -- After a successful `leave_table`.
  abbrev pub reaped : TableId → Field → PlayerData → ℕ → Redis → Room Redis → Room Redis
  reaped table f p duration left room =
      let redis = world.forget table f.seat_number p.id left in
      record {
        redis = redis;
        queue = enqueue_chips table f p room.queue;
        audits =
            note_kick
              (record {
                user_id = p.id;
                table = table;
                seat = f.seat_number;
                duration_offline = duration;
                chips_at_kick = p.chips;
              })
              room.audits;
        next_hands = schedule_hand table redis room.next_hands;
      }

  unfoldable pub kick : TableId → Field → PlayerData → ℕ → Room Redis → Room Redis
  unfolding active_after_kick
  kick table f p duration room =
      let answer = world.leave_table table f.seat_number p.id room.redis in
      elim (answer.0) [
        | none ↦ record room { redis = answer.1 }
        | some success ↦
            if success
            then reaped table f p duration (answer.1) room
            else record room { redis = answer.1 }
      ]

  -- The body of the loop over the fields.
  unfoldable pub sweep_seat : ℕ → TableId → Field → Room Redis → Room Redis
  unfolding kick should_kick
  sweep_seat now table f room =
      let seen = world.last_seen table f.seat_number room.redis in
      let socket = world.has_active_socket table f.seat_number in
      if starts_with f.key "seat_"
      then elim f.value [
        | none ↦ room
        | some p ↦ elim (should_kick now p seen socket) [
          | none ↦ room
          | some duration ↦ kick table f p duration room
        ]
      ]
      else room

  unfoldable pub sweep_fields : ℕ → TableId → List Field → Room Redis → Room Redis
  unfolding sweep_seat
  sweep_fields now table [] room = room
  sweep_fields now table (f ∷ fs) room = sweep_fields now table fs (sweep_seat now table f room)

  unfoldable pub sweep_table : ℕ → TableId → Room Redis → Room Redis
  unfolding sweep_fields
  sweep_table now table room = sweep_fields now table (world.players_of table room.redis) room

  -- `sweep`, once the ids of the tables are known.
  unfoldable pub sweep : ℕ → List TableId → Room Redis → Room Redis
  unfolding sweep_table
  sweep now [] room = room
  sweep now (table ∷ tables) room = sweep now tables (sweep_table now table room)
