-- ===== src/Lifecycle/Defs.antt =====
-- `processLifecycleTransitions` and the processor of the job. Moments are milliseconds.
use cardgames.Prelude.{
  ℕ, ◌+◌, ◌*◌, Bool, not, ◌&&◌, Option, none, some, List, [], ◌∷◌, leb, if◌then◌else◌,
}
use Prim.Native.String.{String}
use text.Mathlib.Text.{◌==◌ as same_text}
use cardgames.Tournament.Defs.{
  Tournament, TournamentStatus, Hall, announced, registering, late_reg, running, same_status,
  commit_hall,
}
use cardgames.Tournament.Admin.{transition_status}

-- `REGISTRATION_LEAD_TIME_MS`
abbrev pub registration_lead_time_ms : ℕ
registration_lead_time_ms = 2 * 60 * 60 * 1000

-- `getLateRegistrationWindowMs`
unfoldable pub get_late_registration_window_ms : String → ℕ
get_late_registration_window_ms window =
    if same_text window "THIRTY_MINUTES"
    then 30 * 60 * 1000
    else if same_text window "SIXTY_MINUTES"
    then 60 * 60 * 1000
    else if same_text window "NINETY_MINUTES"
    then 90 * 60 * 1000
    else if same_text window "UNTIL_FIRST_BREAK"
    then 60 * 60 * 1000
    else if same_text window "DISABLED"
    then 0
    else 60 * 60 * 1000

-- `findMany` by a test.
unfoldable pub select : (Tournament → Bool) → List Tournament → List Tournament
select p [] = []
select p (t ∷ ts) = if p t then t ∷ select p ts else select p ts

-- The body of a rule's loop: a transition, where the rule asks for one. An error is caught.
unfoldable pub attempt : ℕ → ℕ → Option TournamentStatus → Hall → Hall
attempt now id none h = h
attempt now id (some status) h = commit_hall h (transition_status id status now h)

-- `for (const t of found)`
unfoldable pub for_each : ℕ → (Tournament → Option TournamentStatus) → List Tournament → Hall → Hall
unfolding attempt
for_each now target [] h = h
for_each now target (t ∷ ts) h = for_each now target ts (attempt now t.id (target t) h)

-- A rule: the query, then its loop.
unfoldable pub rule : ℕ → (Tournament → Bool) → (Tournament → Option TournamentStatus) → Hall → Hall
unfolding for_each select
rule now p target h = for_each now target (select p h.tournaments) h

-- The queries of the three rules, and what their loops ask for.
abbrev pub opens : ℕ → Tournament → Bool
opens now t =
    same_status t.status announced && leb t.config.start_time (now + registration_lead_time_ms)

abbrev pub to_registering : Tournament → Option TournamentStatus
to_registering t = some registering

abbrev pub starts : ℕ → Tournament → Bool
starts now t = same_status t.status registering && leb t.config.start_time now

abbrev pub to_play : Tournament → Option TournamentStatus
to_play t =
    some (if not (same_text t.config.late_registration "DISABLED") then late_reg else running)

abbrev pub is_late : Tournament → Bool
is_late t = same_status t.status late_reg

unfoldable pub close_late : ℕ → Tournament → Option TournamentStatus
close_late now t =
    if leb (t.config.start_time + get_late_registration_window_ms t.config.late_registration) now
    then some running
    else none

unfoldable pub process_lifecycle_transitions : ℕ → Hall → Hall
unfolding rule close_late
process_lifecycle_transitions now h =
    rule now is_late (close_late now)
      (rule now (starts now) to_play (rule now (opens now) to_registering h))

-- The processor: other jobs do nothing.
unfoldable pub process_tick : String → ℕ → Hall → Hall
unfolding process_lifecycle_transitions
process_tick job_name now h =
    if same_text job_name "tournament-lifecycle-tick"
    then process_lifecycle_transitions now h
    else h
