-- ===== src/Settlement/Cleanup.antt =====
-- The cleanup of the tables at the start of the server: `cleanupStaleTables` after its scan for the
-- ids of the tables. A text in a seat that is no JSON object is `none`. `chips` and `currentBet` are
-- the numbers that `Number(... || 0)` gives, in whole hundredths. Counters that are only logged are
-- left out.
use cardgames.Prelude.{
  ℕ, Bool, Option, none, some, List, [], ◌∷◌, ℤ, pos, ◌+ℤ◌, ltb, ltb_ℤ, if◌then◌else◌,
}
use Prim.Native.String.{String}
use text.Mathlib.Text.{starts_with}
use cardgames.Settlement.Defs.{TableId, CashOutJob, enqueue_job}

-- A seat as the scripts store it.
pub record PlayerData : Type 0 where
  pub id : Option ℕ
  pub chips : ℤ
  pub current_bet : ℤ
  pub status : String
  pub connection : String
  pub disconnected_at : Option ℕ
  pub sit_out_start : Option ℕ

-- A field of the hash `table:{id}:players`, with the number that `parseInt` reads after `seat_`.
pub record Field : Type 0 where
  pub key : String
  pub seat_number : ℕ
  pub value : Option PlayerData

-- `SnapshotPlayer`, without what is only logged.
pub record SnapshotPlayer : Type 0 where
  pub id : ℕ
  pub chips : ℤ
  pub current_bet : ℤ

pub record CleanupResult : Type 0 where
  pub players_refunded : ℕ
  pub total_refunded : ℕ

abbrev pub refundable : SnapshotPlayer → ℤ
refundable player = player.chips +ℤ player.current_bet

abbrev pub seated_player : ℕ → PlayerData → Option SnapshotPlayer
seated_player id p =
    let player : SnapshotPlayer = record {
      id = id;
      chips = p.chips;
      current_bet = p.current_bet;
    } in
    if ltb_ℤ (pos 0) (refundable player) then some player else none

-- The body of the loop over the fields.
unfoldable pub seated_in : Field → Option SnapshotPlayer
seated_in f =
    if starts_with f.key "seat_"
    then elim f.value [
      | none ↦ none
      | some p ↦ elim p.id [ none ↦ none | some id ↦ seated_player id p ]
    ]
    else none

unfoldable pub snapshot : List Field → List SnapshotPlayer
unfolding seated_in
snapshot [] = []
snapshot (f ∷ fs) = elim (seated_in f) [ none ↦ snapshot fs | some player ↦ player ∷ snapshot fs ]

-- The text of a user's id, and of the moment at which the job of a player is made.
abbrev pub refund_job :
    (ℕ → String) → (TableId → SnapshotPlayer → String) → TableId → SnapshotPlayer → CashOutJob
refund_job id_text date_now table player = record {
  job_id = "reconciliation" ∷ id_text player.id ∷ table.text ∷ date_now table player ∷ [];
  name = "settle-cashout";
  user_id = some player.id;
  amount = some (refundable player);
  table_id = some table;
  reference_id = none;
  source = "boot_reconciliation";
}

-- Redis, the hash of a table's players, and the script `force_cleanup`, which gives nothing where
-- it throws or its answer is no JSON; what ids the queue accepts.
module _ {Redis : Type 0} (players_of : TableId → Redis → List Field)
    (force_cleanup : TableId → Redis → Option CleanupResult × Redis) (id_text : ℕ → String)
    (date_now : TableId → SnapshotPlayer → String) (accepts : List String → Bool) where
  unfoldable pub enqueue_refunds : TableId → List SnapshotPlayer → List CashOutJob → List CashOutJob
  unfolding enqueue_job
  enqueue_refunds table [] queue = queue
  enqueue_refunds table (player ∷ players) queue =
      enqueue_refunds table players
        (enqueue_job accepts (refund_job id_text date_now table player) queue)

  -- One table: the snapshot before the cleanup, and the jobs after it.
  unfoldable pub cleanup_table : TableId → Redis × List CashOutJob → Redis × List CashOutJob
  unfolding snapshot enqueue_refunds
  cleanup_table table (redis, queue) =
      let players = snapshot (players_of table redis) in
      let ran = force_cleanup table redis in
      elim (ran.0) [
        | none ↦ (ran.1, queue)
        | some parsed ↦
            if ltb 0 parsed.players_refunded
            then (ran.1, enqueue_refunds table players queue)
            else (ran.1, queue)
      ]

  unfoldable pub cleanup_stale_tables :
      List TableId → Redis × List CashOutJob → Redis × List CashOutJob
  unfolding cleanup_table
  cleanup_stale_tables [] state = state
  cleanup_stale_tables (table ∷ tables) state =
      cleanup_stale_tables tables (cleanup_table table state)
