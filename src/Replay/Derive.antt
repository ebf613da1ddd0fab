-- ===== src/Replay/Derive.antt =====
-- What the replayed table says of the actions that led to it.
use cardgames.Prelude.{
  ℕ, zero, suc, ◌+◌, ◌≡◌, refl, sym, ◌∙◌, ap, subst, inl, inr, Bool, true, false, not, ◌&&◌, ◌||◌,
  Option, none, some, List, [], ◌∷◌, ◌++◌, map, take, get_elem?, arith, ℤ, pos, ◌==◌, ==_iff,
  ==_refl, if◌then◌else◌, Bool-cases, Option-cases,
}
use Prim.Native.String.{String}
use text.Mathlib.Text.{◌==◌ as same_text}
use cardgames.Store.Table.{find, update, find-update_self, find-update_ne}
use cardgames.Replay.Defs.{
  ActionEntry, PlayerSnapshot, Progress, start, newcomer, clear_last, ensure_player, note_action,
  apply_action, replay, rounds, derive_state, show_progress, ReplayState, puts_chips, folds,
}

-- One round more is one action more.
pub replay-suc :
    (n : ℕ) (actions : List ActionEntry) (s : Progress) (a : ActionEntry)
    → get_elem? actions n ≡ some a
    → replay (suc n) actions s ≡ apply_action a (replay n actions s)
unfolding replay
replay-suc n [] s a h = cc
replay-suc zero (b ∷ actions) s a h = ap (λ x. apply_action x s) (some_eq b a h)
  where
    some_eq : (u v : ActionEntry) → some u ≡ some v → u ≡ v
    some_eq u v e = ground arith
replay-suc (suc n) (b ∷ actions) s a h = replay-suc n actions (apply_action b s) a h

-- The chips of a seat and whether it still plays; a seat that is not there has put nothing in.
abbrev pub standing_of : Option PlayerSnapshot → ℕ × Bool
standing_of none = (0, true)
standing_of (some p) = (p.total_contributed, p.is_active)

abbrev pub standing : ℕ → List PlayerSnapshot → ℕ × Bool
standing k players = standing_of (find (λ p. p.seat == k) players)

-- What one action adds to a standing.
abbrev pub after_action : ℕ → ActionEntry → ℕ × Bool → ℕ × Bool
after_action k a before = (
  before.0 + (if a.seat == k && puts_chips a.action then a.amount else 0),
  before.1 && not (a.seat == k && folds a.action),
)

standing-clear :
    (k : ℕ) (players : List PlayerSnapshot)
    → standing k (map clear_last players) ≡ standing k players
unfolding find clear_last
standing-clear k [] = refl
standing-clear k (p ∷ players) = elim (Bool-cases (p.seat == k)) [
  | inl e ↦ rw e refl
  | inr e ↦ rw e (standing-clear k players)
]

find-append :
    (k : ℕ) (new : PlayerSnapshot) (players : List PlayerSnapshot)
    → find (λ p. p.seat == k) players ≡ none
    → find (λ p. p.seat == k) (players ++ new ∷ []) ≡ (if new.seat == k then some new else none)
unfolding find
find-append k new [] h = refl
find-append k new (p ∷ players) h = ground (arith, find-append k new players)

find-append_some :
    (k : ℕ) (new p : PlayerSnapshot) (players : List PlayerSnapshot)
    → find (λ p. p.seat == k) players ≡ some p
    → find (λ p. p.seat == k) (players ++ new ∷ []) ≡ some p
unfolding find
find-append_some k new p [] h = cc
find-append_some k new p (q ∷ players) h = ground (arith, find-append_some k new p players)

standing-append :
    (k : ℕ) (new : PlayerSnapshot) (players : List PlayerSnapshot)
    → new.total_contributed ≡ 0
    → new.is_active ≡ true
    → standing k (players ++ new ∷ []) ≡ standing k players
standing-append k new players zero_in plays =
    elim (Option-cases (find (λ p. p.seat == k) players)) [
      | inr (p, e) ↦ rw (find-append_some k new p players e, e) refl
      | inl e ↦ rw (find-append k new players e, e) (fresh (new.seat == k))
    ]
  where
    fresh : (b : Bool) → standing_of (if b then some new else none) ≡ (0, true)
    fresh true = ap (λ x. (x, new.is_active)) zero_in ∙ ap (λ y. (0, y)) plays
    fresh false = refl

standing-ensure :
    (k : ℕ) (a : ActionEntry) (players : List PlayerSnapshot)
    → standing k (ensure_player a players) ≡ standing k players
unfolding ensure_player
standing-ensure k a players = elim (Option-cases (find (λ p. p.seat == a.seat) players)) [
  | inr (p, e) ↦ rw (e, ensure_player) refl
  | inl e ↦ rw (e, ensure_player) (standing-append k (newcomer a) players refl refl)
]

ensured :
    (a : ActionEntry) (players : List PlayerSnapshot)
    → (p : PlayerSnapshot) × (find (λ p. p.seat == a.seat) (ensure_player a players) ≡ some p)
unfolding ensure_player
ensured a players = elim (Option-cases (find (λ p. p.seat == a.seat) players)) [
  | inr (p, e) ↦ (p, rw (e, ensure_player) e)
  | inl e ↦ (
    newcomer a,
    rw (e, ensure_player, find-append a.seat (newcomer a) players e, ==_refl a.seat) refl,
  )
]

abbrev pair : ℕ → Bool → ℕ × Bool
pair n b = (n, b)

standing-note :
    (k : ℕ) (a : ActionEntry) (players : List PlayerSnapshot) (p : PlayerSnapshot)
    → find (λ p. p.seat == a.seat) players ≡ some p
    → standing k (update (λ p. p.seat == a.seat) (note_action a) players)
      ≡ after_action k a (standing k players)
unfolding note_action
standing-note k a players p found = elim (Bool-cases (a.seat == k)) [
  | inr e ↦
      rw
        (
          find-update_ne (λ (p : PlayerSnapshot). p.seat) a.seat k (note_action a) players
              (λ q. refl) (λ q. absurd (ground arith)),
          e,
        )
        (idle (standing k players))
  | inl e ↦
      subst
        (λ j.
          standing j (update (λ p. p.seat == a.seat) (note_action a) players)
          ≡ after_action j a (standing j players))
        ((==_iff a.seat k).0 e)
        (rw
          (
            find-update_self (λ (p : PlayerSnapshot). p.seat) a.seat (note_action a) players p
                (λ q. refl) found,
            found,
            ==_refl a.seat,
          )
          (noted (puts_chips a.action) (folds a.action)))
]
  where
    idle : (x : ℕ × Bool) → x ≡ (x.0 + 0, x.1 && true)
    idle x = ground arith

    noted :
        (b c : Bool)
        → pair
            (if b then p.total_contributed + a.amount else p.total_contributed)
            (if c then false else p.is_active)
          ≡ (p.total_contributed + (if b then a.amount else 0), p.is_active && not c)
    noted b c = ground arith

standing-apply :
    (k : ℕ) (a : ActionEntry) (s : Progress)
    → standing k (apply_action a s).players ≡ after_action k a (standing k s.players)
unfolding apply_action
standing-apply k a s =
    let cleared =
      if same_text a.street s.current_street then s.players else map clear_last s.players in
    standing-note k a (ensure_player a cleared) _ (ensured a cleared).1
    ∙ ap (after_action k a)
        (standing-ensure k a cleared ∙ street (same_text a.street s.current_street))
  where
    street :
        (b : Bool)
        → standing k (if b then s.players else map clear_last s.players) ≡ standing k s.players
    street true = refl
    street false = standing-clear k s.players

-- What the calls, raises, bets and all-ins of a seat add up to.
pub contributed : ℕ → List ActionEntry → ℕ
contributed k [] = 0
contributed k (a ∷ actions) =
    (if a.seat == k && puts_chips a.action then a.amount else 0) + contributed k actions

-- Does the seat fold in these actions?
pub has_folded : ℕ → List ActionEntry → Bool
has_folded k [] = false
has_folded k (a ∷ actions) = (a.seat == k && folds a.action) || has_folded k actions

standing-replay :
    (k n : ℕ) (actions : List ActionEntry) (s : Progress)
    → standing k (replay n actions s).players ≡ (
      (standing k s.players).0 + contributed k (take n actions),
      (standing k s.players).1 && not (has_folded k (take n actions)),
    )
unfolding replay contributed has_folded
standing-replay k zero actions s = nothing (standing k s.players)
  where
    nothing : (x : ℕ × Bool) → x ≡ (x.0 + 0, x.1 && true)
    nothing x = ground arith
standing-replay k (suc n) [] s = nothing (standing k s.players)
  where
    nothing : (x : ℕ × Bool) → x ≡ (x.0 + 0, x.1 && true)
    nothing x = ground arith
standing-replay k (suc n) (a ∷ actions) s =
    standing-replay k n actions (apply_action a s)
    ∙ rw (standing-apply k a s) (
        joined (standing k s.players) (if a.seat == k && puts_chips a.action then a.amount else 0)
          (contributed k (take n actions)) (a.seat == k && folds a.action)
          (has_folded k (take n actions)))
  where
    joined :
        (x : ℕ × Bool) (c d : ℕ) (f g : Bool)
        → pair (x.0 + c + d) (x.1 && not f && not g) ≡ (x.0 + (c + d), x.1 && not (f || g))
    joined x c d f g = ground arith

-- At every index, a player of the replayed table has contributed what the calls, raises, bets and
-- all-ins of that seat up to the index add up to, and is active unless the seat folded by then.
pub derive_state-players :
    (actions : List ActionEntry) (cards : List String) (index : ℤ) (k : ℕ) (p : PlayerSnapshot)
    → find (λ q. q.seat == k) (derive_state actions cards index).players ≡ some p
    → (p.total_contributed ≡ contributed k (take (rounds index) actions))
      × (p.is_active ≡ not (has_folded k (take (rounds index) actions)))
unfolding derive_state find
derive_state-players actions cards index k p found =
    let e = ap standing_of (sym found) ∙ standing-replay k (rounds index) actions start in
    (ap (λ x. x.0) e ∙ zero_left _, ap (λ x. x.1) e)
  where
    zero_left : (n : ℕ) → 0 + n ≡ n
    zero_left n = omega arith

-- The loop's variables as a shown state tells them.
abbrev pub progress_of : ReplayState → Progress
progress_of t = record {
  players = t.players;
  pot = t.pot;
  current_street = t.current_street;
  active_seat = t.active_seat;
  last_action = t.last_action;
}

-- Where the log has a next action, replaying from the start to its index shows the same as
-- applying that action to the state shown before: a step forward changes the table by exactly one
-- action.
pub derive_state-step :
    (actions : List ActionEntry) (cards : List String) (n : ℕ) (a : ActionEntry)
    → get_elem? actions (suc n) ≡ some a
    → derive_state actions cards (pos (suc n))
      ≡ show_progress cards
          (pos (suc n))
          (apply_action a (progress_of (derive_state actions cards (pos n))))
unfolding derive_state
derive_state-step actions cards n a h =
    ap (show_progress cards (pos (suc n))) (replay-suc (suc n) actions start a h)
