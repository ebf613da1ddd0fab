-- ===== src/Lifecycle/Runs.antt =====
-- Several runs of the job, and the run that starts the play.
use cardgames.Prelude.{
  ℕ, ◌+◌, ◌≤◌, ◌<◌, ◌≡◌, sym, ◌∙◌, ap, Bool, true, some, arith, leb, if◌then◌else◌,
}
use cardgames.Tournament.Defs.{
  Config, Tournament, TournamentStatus, Hall, announced, registering, late_reg, running,
  find_tournament, status_index,
}
use cardgames.Lifecycle.Defs.{
  registration_lead_time_ms, get_late_registration_window_ms, close_late, starts, opens, to_play,
  to_registering, is_late, process_lifecycle_transitions,
}
use cardgames.Lifecycle.Rule.{UniqueTournaments, rule-UniqueTournaments}
use cardgames.Lifecycle.Due.{scheduled, later, process_lifecycle_transitions-due}

process-UniqueTournaments :
    (now : ℕ) (h : Hall)
    → UniqueTournaments h
    → UniqueTournaments (process_lifecycle_transitions now h)
unfolding process_lifecycle_transitions
process-UniqueTournaments now h u = rule-UniqueTournaments now (close_late now) is_late _ (
    rule-UniqueTournaments now to_play (starts now) _
      (rule-UniqueTournaments now to_registering (opens now) h u))

-- The schedule only moves on.
scheduled-le :
    (a b : ℕ) (c : Config) → a ≤ b → status_index (scheduled a c) ≤ status_index (scheduled b c)
scheduled-le a b c h =
    moves (c.start_time) (get_late_registration_window_ms c.late_registration)
      registration_lead_time_ms
  where
    moves :
        (s w l : ℕ)
        → status_index (
            if leb (s + w) a
            then running
            else if leb s a
            then late_reg
            else if leb s (a + l)
            then registering
            else announced)
          ≤ status_index (
              if leb (s + w) b
              then running
              else if leb s b
              then late_reg
              else if leb s (b + l)
              then registering
              else announced)
    moves s w l = ground arith

scheduled-bound : (a : ℕ) (c : Config) → status_index (scheduled a c) ≤ 3
scheduled-bound a c =
    bound (leb (c.start_time + get_late_registration_window_ms c.late_registration) a)
      (leb c.start_time a) (leb c.start_time (a + registration_lead_time_ms))
  where
    bound :
        (p q r : Bool)
        → status_index
            (if p then running else if q then late_reg else if r then registering else announced)
          ≤ 3
    bound p q r = ground arith

later-later :
    (own m n : TournamentStatus)
    → status_index m ≤ status_index n
    → status_index n ≤ 3
    → later (later own m) n ≡ later own n
later-later own m n h bound = ground arith

-- Missed runs make no difference: where the ids of the tournaments are unique, a run at an earlier
-- moment and then one at a later moment leave a known tournament as the later run alone does.
process_lifecycle_transitions_missed :
    (a b : ℕ) (h : Hall) (k : ℕ) (t : Tournament)
    → a ≤ b
    → UniqueTournaments h
    → find_tournament k h ≡ some t
    → find_tournament k (process_lifecycle_transitions b (process_lifecycle_transitions a h))
      ≡ find_tournament k (process_lifecycle_transitions b h)
process_lifecycle_transitions_missed a b h k t order u found =
    process_lifecycle_transitions-due b _ k _ (process-UniqueTournaments a h u)
      (process_lifecycle_transitions-due a h k t u found)
    ∙ ap (λ s. some (record t { status = s }))
        (later-later t.status _ _ (scheduled-le a b t.config order) (scheduled-bound b t.config))
    ∙ sym (process_lifecycle_transitions-due b h k t u found)

-- Play begins: where the ids of the tournaments are unique, a tournament that is announced, open
-- for registration or in its late registration is running after the first run of the job at or
-- after the end of its late registration window, whatever runs were missed.
pub process_lifecycle_transitions_begins :
    (now : ℕ) (h : Hall) (k : ℕ) (t : Tournament)
    → UniqueTournaments h
    → find_tournament k h ≡ some t
    → status_index t.status < 3
    → t.config.start_time + get_late_registration_window_ms t.config.late_registration ≤ now
    → find_tournament k (process_lifecycle_transitions now h) ≡ some (record t { status = running })
process_lifecycle_transitions_begins now h k t u found early over =
    process_lifecycle_transitions-due now h k t u found
    ∙ ap (λ s. some (record t { status = s })) (begins t.status early)
  where
    closed :
        leb (t.config.start_time + get_late_registration_window_ms t.config.late_registration) now
        ≡ true
    closed = ground arith

    begins :
        (s : TournamentStatus) → status_index s < 3 → later s (scheduled now t.config) ≡ running
    begins s e = rw closed (ground arith)
