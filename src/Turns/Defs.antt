-- ===== src/Turns/Defs.antt =====
-- `TurnTimerProcessor.process`. The tables of Redis are a parameter, with the script `timeout`, which
-- answers or throws, where an answer that is no JSON counts as thrown. What throws after the first
-- read is caught and only logged; an error of that read leaves all as it is. The audit is a call.
use cardgames.Prelude.{
  ℕ, zero, ◌*◌, Bool, true, false, ◌&&◌, Option, none, some, List, [], ◌∷◌, ◌++◌, ◌==◌,
  if◌then◌else◌,
}
use Prim.Native.String.{String}
use text.Mathlib.Text.{◌==◌ as same_text}
use cardgames.Timers.Defs.{Timers, cancel_timeout, schedule_timeout}

-- The answer to a fold. `next_turn` is none where it is no seat.
pub record Fold : Type 0 where
  pub benched : Bool
  pub player_id : Option ℕ
  pub hand_complete : Bool
  pub winning_seat : Option ℕ
  pub next_street : Bool
  pub next_turn : Option ℕ

-- What the script answers; `extended` has the milliseconds and the balance of the time bank.
pub data TimeoutReply : Type 0 where
  thrown failed other_action : TimeoutReply
  extended : Option ℕ → ℕ → TimeoutReply
  folded : Fold → TimeoutReply

-- What is sent, recorded and called: `your_turn` with the seat, the milliseconds and `isTimeBank`.
pub data TurnEffect : Type 0 where
  time_bank_activated : ℕ → ℕ → ℕ → TurnEffect
  your_turn : ℕ → ℕ → Bool → TurnEffect
  fold_action : ℕ → TurnEffect
  sitting_out : ℕ → TurnEffect
  audit_timeout : ℕ → ℕ → TurnEffect
  broadcast_state : TurnEffect
  hand_result : Option ℕ → TurnEffect
  new_hand_in : ℕ → TurnEffect
  advance_street : TurnEffect

pub record TurnRun (T : Type 0) : Type 0 where
  pub timers : Timers
  pub tables : T
  pub effects : List TurnEffect

-- `response.durationMs || 30000`
abbrev pub duration_or : Option ℕ → ℕ
duration_or none = 30000
duration_or (some zero) = 30000
duration_or (some d) = d

abbrev pub audit_of : ℕ → Option ℕ → List TurnEffect
audit_of seat none = []
audit_of seat (some player) = audit_timeout player seat ∷ []

abbrev pub bench_effects : ℕ → Fold → List TurnEffect
bench_effects seat f = if f.benched then sitting_out seat ∷ audit_of seat f.player_id else []

-- `parseInt(turnTimeCfg || '30', 10) * 1000`
abbrev pub turn_time_ms : Option ℕ → ℕ
turn_time_ms none = 30 * 1000
turn_time_ms (some seconds) = seconds * 1000

-- Where a call of `scheduleTimeout` throws: before the earlier job is removed, before its key is, at the
-- new job, or before the new key is set.
pub data ScheduleFault : Type 0 where
  no_fault cancel_fails forget_fails add_fails track_fails : ScheduleFault

-- The timers after the call, and whether it returns.
abbrev pub schedule_or_throw :
    (ℕ → ℕ → Bool) → ScheduleFault → ℕ → ℕ → ℕ → ℕ → Timers → Timers × Bool
schedule_or_throw removable no_fault table seat ms now s =
    (schedule_timeout removable table seat ms now s, true)
schedule_or_throw removable cancel_fails table seat ms now s = (s, false)
schedule_or_throw removable forget_fails table seat ms now s =
    (record s { queue = (cancel_timeout removable table s).queue }, false)
schedule_or_throw removable add_fails table seat ms now s =
    (cancel_timeout removable table s, false)
schedule_or_throw removable track_fails table seat ms now s = (
  record {
    queue = (schedule_timeout removable table seat ms now s).queue;
    tracked = (cancel_timeout removable table s).tracked;
  },
  false,
)

-- Messages that are sent if the call before them returns.
abbrev pub if_returned : List TurnEffect → Timers × Bool → Timers × List TurnEffect
if_returned effects (s, true) = (s, effects)
if_returned effects (s, false) = (s, [])

-- Parameters: whether a job can be removed, the seat whose turn it is, the setting of the turn time (none
-- where its read throws), the script, whether the state after a fold can be read and broadcast, and
-- where `scheduleTimeout` throws.
module _ {T : Type 0} (removable : ℕ → ℕ → Bool) (turn_seat : ℕ → T → Option ℕ)
    (turn_time : ℕ → T → Option (Option ℕ)) (timeout : ℕ → ℕ → T → TimeoutReply × T)
    (shows : ℕ → T → Bool) (fault : ℕ → ℕ → T → ScheduleFault) where
  -- The turn of a seat, with the setting that was read.
  abbrev pub begin_turn : ℕ → ℕ → Option (Option ℕ) → ℕ → Timers → T → Timers × List TurnEffect
  begin_turn table next none now s t = (s, [])
  begin_turn table next (some setting) now s t =
      let ms = turn_time_ms setting in
      if_returned (your_turn next ms false ∷ [])
        (schedule_or_throw removable (fault table next t) table next ms now s)

  -- The timer of the next player, if the turn moved.
  abbrev pub pass_turn : ℕ → Option ℕ → ℕ → Timers → T → Timers × List TurnEffect
  pass_turn table none now s t = (s, [])
  pass_turn table (some next) now s t = begin_turn table next (turn_time table t) now s t

  -- How the hand goes on after a fold.
  abbrev pub go_on : ℕ → Fold → ℕ → Timers → T → Timers × List TurnEffect
  go_on table f now s t =
      if f.hand_complete
      then (s, hand_result f.winning_seat ∷ new_hand_in 5000 ∷ [])
      else if f.next_street
      then (s, advance_street ∷ [])
      else pass_turn table f.next_turn now s t

  -- The broadcast after a fold, and what follows it; an error ends the work on the turn.
  abbrev pub show_fold : ℕ → Fold → ℕ → Timers → T → Timers × List TurnEffect
  show_fold table f now s t =
      let next = go_on table f now s t in
      if shows table t then (next.0, broadcast_state ∷ next.1) else (s, [])

  abbrev pub answer : ℕ → ℕ → ℕ → Timers → TimeoutReply × T → TurnRun T
  answer table seat now s (extended duration balance, t) =
      let ms = duration_or duration in
      let next =
        if_returned (time_bank_activated seat ms balance ∷ your_turn seat ms true ∷ [])
          (schedule_or_throw removable (fault table seat t) table seat ms now s) in
      record { timers = next.0; tables = t; effects = next.1 }
  answer table seat now s (folded f, t) =
      let next = show_fold table f now s t in
      record {
        timers = next.0;
        tables = t;
        effects = (fold_action seat ∷ bench_effects seat f) ++ next.1;
      }
  answer table seat now s (_, t) = record { timers = s; tables = t; effects = [] }

  abbrev pub is_turn_of : ℕ → Option ℕ → Bool
  is_turn_of seat none = false
  is_turn_of seat (some current) = current == seat

  -- The last two arguments are the timers and the tables; before them comes the present moment.
  unfoldable pub process_timeout : String → ℕ → ℕ → ℕ → Timers → T → TurnRun T
  process_timeout name table seat now s t =
      if same_text name "turn-timeout" && is_turn_of seat (turn_seat table t)
      then answer table seat now s (timeout table seat t)
      else record { timers = s; tables = t; effects = [] }
