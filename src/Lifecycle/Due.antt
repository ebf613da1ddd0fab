-- ===== src/Lifecycle/Due.antt =====
-- The rules together: by the clock, a tournament that has not begun is in the later of its own
-- status and the status of the moment.
use cardgames.Prelude.{
  ℕ, ◌+◌, ◌≡◌, refl, sym, ◌∙◌, ap, subst, inl, inr, true, false, ◌&&◌, some, arith, leb, ltb,
  if◌then◌else◌, Bool-cases,
}
use Prim.Native.String.{String}
use text.Mathlib.Text.{◌==◌ as same_text}
use text.Mathlib.TextEquality.{eq_iff}
use cardgames.Tournament.Defs.{
  Config, Tournament, TournamentStatus, Hall, announced, registering, late_reg, running, on_break,
  paused, finished, cancelled, find_tournament, status_index,
}
use cardgames.Lifecycle.Defs.{
  registration_lead_time_ms, get_late_registration_window_ms, opens, starts, to_registering,
  to_play, is_late, close_late, process_lifecycle_transitions,
}
use cardgames.Lifecycle.Rule.{UniqueTournaments, with_status, rule_lem, rule-UniqueTournaments}

-- The status of a moment, of the schedule alone.
abbrev pub scheduled : ℕ → Config → TournamentStatus
scheduled now c =
    if leb (c.start_time + get_late_registration_window_ms c.late_registration) now
    then running
    else if leb c.start_time now
    then late_reg
    else if leb c.start_time (now + registration_lead_time_ms)
    then registering
    else announced

-- The later of two statuses; what is on or over is not IsMoved by the clock.
abbrev pub later : TournamentStatus → TournamentStatus → TournamentStatus
later own moment =
    if ltb (status_index own) 3 && ltb (status_index own) (status_index moment) then moment else own

abbrev pub due : ℕ → Tournament → Tournament
due now t = record t { status = later t.status (scheduled now t.config) }

-- What the three rules make of a tournament.
abbrev by_rules : ℕ → Tournament → Tournament
by_rules now t =
    let a = if opens now t then with_status (to_registering t) now t else t in
    let b = if starts now a then with_status (to_play a) now a else a in
    if is_late b then with_status (close_late now b) now b else b

disabled_window :
    (w : String) → same_text w "DISABLED" ≡ true → get_late_registration_window_ms w ≡ 0
unfolding get_late_registration_window_ms
disabled_window w h =
    subst (λ v. get_late_registration_window_ms v ≡ 0) (sym ((eq_iff w "DISABLED").0 h)) refl

not_yet : (a n l : ℕ) → leb a (n + l) ≡ false → leb a n ≡ false
not_yet a n l h = ground arith

not_closed : (a n w : ℕ) → leb a n ≡ false → leb (a + w) n ≡ false
not_closed a n w h = ground arith

at_once : (a n w : ℕ) → leb a n ≡ true → w ≡ 0 → leb (a + w) n ≡ true
at_once a n w h z = ground arith

module _ (now : ℕ) (t : Tournament) where
  abbrev window : ℕ
  window = get_late_registration_window_ms t.config.late_registration

  abbrev IsMoved : TournamentStatus → Type 0
  IsMoved st = by_rules now (record t { status = st }) ≡ due now (record t { status = st })

  registering-IsMoved : IsMoved registering
  unfolding close_late
  registering-IsMoved = elim (Bool-cases (leb t.config.start_time now)) [
    | inr s ↦
        rw (s, not_closed t.config.start_time now window s)
          (elim (Bool-cases (leb t.config.start_time (now + registration_lead_time_ms))) [
            | inl o ↦ rw o refl
            | inr o ↦ rw o refl
          ])
    | inl s ↦ elim (Bool-cases (same_text t.config.late_registration "DISABLED")) [
      | inl d ↦ rw (s, at_once t.config.start_time now window s (disabled_window _ d), d) refl
      | inr d ↦ elim (Bool-cases (leb (t.config.start_time + window) now)) [
        | inl c ↦ rw (s, d, c) refl
        | inr c ↦ rw (s, d, c) refl
      ]
    ]
  ]

  late_reg-IsMoved : IsMoved late_reg
  unfolding close_late
  late_reg-IsMoved = elim (Bool-cases (leb (t.config.start_time + window) now)) [
    | inl c ↦ rw c refl
    | inr c ↦ elim (Bool-cases (leb t.config.start_time now)) [
      | inl s ↦ rw (c, s) refl
      | inr s ↦ elim (Bool-cases (leb t.config.start_time (now + registration_lead_time_ms))) [
        | inl o ↦ rw (c, s, o) refl
        | inr o ↦ rw (c, s, o) refl
      ]
    ]
  ]

  announced-IsMoved : IsMoved announced
  unfolding close_late
  announced-IsMoved =
      elim (Bool-cases (leb t.config.start_time (now + registration_lead_time_ms))) [
        | inr o ↦
            let s = not_yet t.config.start_time now registration_lead_time_ms o in
            rw (o, s, not_closed t.config.start_time now window s) refl
        | inl o ↦ elim (Bool-cases (leb t.config.start_time now)) [
          | inr s ↦ rw (o, s, not_closed t.config.start_time now window s) refl
          | inl s ↦ elim (Bool-cases (same_text t.config.late_registration "DISABLED")) [
            | inl d ↦
                rw (o, s, at_once t.config.start_time now window s (disabled_window _ d), d) refl
            | inr d ↦ elim (Bool-cases (leb (t.config.start_time + window) now)) [
              | inl c ↦ rw (o, s, d, c) refl
              | inr c ↦ rw (o, s, d, c) refl
            ]
          ]
        ]
      ]

  any-IsMoved : (st : TournamentStatus) → IsMoved st
  any-IsMoved announced = announced-IsMoved
  any-IsMoved registering = registering-IsMoved
  any-IsMoved late_reg = late_reg-IsMoved
  any-IsMoved running = refl
  any-IsMoved on_break = refl
  any-IsMoved paused = refl
  any-IsMoved finished = refl
  any-IsMoved cancelled = refl

-- One run of the job implements the schedule: where the ids of the tournaments are unique, a known
-- tournament has after the run the later of its status and the status that its start time, the
-- registration lead time and its late registration window give for the moment; a tournament that
-- is running, on a break, paused, finished or cancelled keeps its status, and nothing else of the
-- row changes.
pub process_lifecycle_transitions-due :
    (now : ℕ) (h : Hall) (k : ℕ) (t : Tournament)
    → UniqueTournaments h
    → find_tournament k h ≡ some t
    → find_tournament k (process_lifecycle_transitions now h) ≡ some (due now t)
unfolding process_lifecycle_transitions
process_lifecycle_transitions-due now h k t u found =
    let u1 = rule-UniqueTournaments now to_registering (opens now) h u in
    let u2 = rule-UniqueTournaments now to_play (starts now) _ u1 in
    let f1 = rule_lem now to_registering (opens now) h k t u found in
    let f2 = rule_lem now to_play (starts now) _ k _ u1 f1 in
    rule_lem now (close_late now) is_late _ k _ u2 f2 ∙ ap some (any-IsMoved now t t.status)
