-- ===== src/Replay/Defs.antt =====
-- `deriveState`, and the hook's state with its controls. A control that sets several React states is
-- one step; an interval's tick is one step. Chips are natural numbers, the place -1 is the start.
use cardgames.Prelude.{
  min_ℤ, max_ℤ, ℕ, zero, suc, ◌+◌, Bool, true, false, ◌||◌, Option, none, some, List, [], ◌∷◌, map,
  take, length, ◌++◌, ℤ, pos, negsuc, ◌+ℤ◌, ◌-ℤ◌, leb_ℤ, ltb_ℤ, ◌==◌, if◌then◌else◌,
}
use Prim.Native.String.{String}
use text.Mathlib.Text.{◌==◌ as same_text}
use cardgames.Store.Table.{find, update}

pub record ActionEntry : Type 0 where
  pub street : String
  pub seat : ℕ
  pub player : String
  pub action : String
  pub amount : ℕ
  pub pot : ℕ

pub record PlayerSnapshot : Type 0 where
  pub seat : ℕ
  pub name : String
  pub last_action : Option String
  pub last_amount : ℕ
  pub is_active : Bool
  pub total_contributed : ℕ

pub record ReplayState : Type 0 where
  pub current_index : ℤ
  pub current_street : String
  pub pot : ℕ
  pub active_seat : Option ℕ
  pub last_action : Option ActionEntry
  pub visible_community_cards : List String
  pub players : List PlayerSnapshot

-- The variables of the loop of `deriveState`; a Map is the list of its values in insertion order.
pub record Progress : Type 0 where
  pub players : List PlayerSnapshot
  pub pot : ℕ
  pub current_street : String
  pub active_seat : Option ℕ
  pub last_action : Option ActionEntry

abbrev pub start : Progress
start = record {
  players = [];
  pot = 0;
  current_street = "preflop";
  active_seat = none;
  last_action = none;
}

unfoldable pub get_visible_card_count : String → ℕ
get_visible_card_count street =
    if same_text street "flop"
    then 3
    else if same_text street "turn"
    then 4
    else if same_text street "river"
    then 5
    else 0

-- `['call', 'raise', 'bet', 'all-in'].includes(action)`
unfoldable pub puts_chips : String → Bool
puts_chips action =
    same_text action "call"
    || same_text action "raise"
    || same_text action "bet"
    || same_text action "all-in"

unfoldable pub folds : String → Bool
folds action = same_text action "fold"

-- A new street clears every last action.
unfoldable pub clear_last : PlayerSnapshot → PlayerSnapshot
clear_last p = record p { last_action = none; last_amount = 0 }

abbrev pub newcomer : ActionEntry → PlayerSnapshot
newcomer a = record {
  seat = a.seat;
  name = a.player;
  last_action = none;
  last_amount = 0;
  is_active = true;
  total_contributed = 0;
}

unfoldable pub ensure_player : ActionEntry → List PlayerSnapshot → List PlayerSnapshot
ensure_player a players = elim (find (λ p. p.seat == a.seat) players) [
  | some p ↦ players
  | none ↦ players ++ newcomer a ∷ []
]

unfoldable pub note_action : ActionEntry → PlayerSnapshot → PlayerSnapshot
unfolding folds puts_chips
note_action a p = record p {
  last_action = some a.action;
  last_amount = a.amount;
  is_active = if folds a.action then false else p.is_active;
  total_contributed =
      if puts_chips a.action then p.total_contributed + a.amount else p.total_contributed;
}

-- One round of the loop.
unfoldable pub apply_action : ActionEntry → Progress → Progress
unfolding clear_last ensure_player note_action
apply_action a s = record {
  players =
      update (λ p. p.seat == a.seat) (note_action a)
        (ensure_player a
          (if same_text a.street s.current_street then s.players else map clear_last s.players));
  pot = a.pot;
  current_street = a.street;
  active_seat = some a.seat;
  last_action = some a;
}

-- The rounds of `for (let i = 0; i <= upToIndex && i < actions.length; i++)`, `count` of them at
-- most.
unfoldable pub replay : ℕ → List ActionEntry → Progress → Progress
unfolding apply_action
replay zero actions s = s
replay (suc count) [] s = s
replay (suc count) (a ∷ actions) s = replay count actions (apply_action a s)

-- `i <= upToIndex` from 0: no round for a negative index.
abbrev pub rounds : ℤ → ℕ
rounds (pos n) = suc n
rounds (negsuc n) = 0

-- The state that is returned for the loop's variables.
abbrev pub show_progress : List String → ℤ → Progress → ReplayState
show_progress community_cards index s = record {
  current_index = index;
  current_street = s.current_street;
  pot = s.pot;
  active_seat = s.active_seat;
  last_action = s.last_action;
  visible_community_cards = take (get_visible_card_count s.current_street) community_cards;
  players = s.players;
}

unfoldable pub derive_state : List ActionEntry → List String → ℤ → ReplayState
unfolding replay
derive_state actions community_cards up_to_index =
    show_progress community_cards up_to_index (replay (rounds up_to_index) actions start)

pub record Replayer : Type 0 where
  pub current_index : ℤ
  pub is_playing : Bool
  pub playback_speed : ℕ

pub data Control : Type 0 where
  play pause toggle_play step_forward step_backward reset : Control
  go_to_index : ℤ → Control
  set_speed : ℕ → Control
  -- The interval's callback, while the hook plays.
  tick : Control

abbrev pub last_index : List ActionEntry → ℤ
last_index log = pos (length log) -ℤ pos 1

-- The state of the first render.
abbrev pub initial : Replayer
initial = record { current_index = negsuc 0; is_playing = false; playback_speed = 1000 }

unfoldable pub do_play : List ActionEntry → Replayer → Replayer
do_play log r = record r {
  current_index = if leb_ℤ (last_index log) r.current_index then negsuc 0 else r.current_index;
  is_playing = true;
}

unfoldable pub do_tick : List ActionEntry → Replayer → Replayer
do_tick log r =
    let moved =
      if leb_ℤ (last_index log) r.current_index
      then record r { is_playing = false }
      else record r { current_index = r.current_index +ℤ pos 1 } in
    if r.is_playing then moved else r

unfoldable pub handle : List ActionEntry → Control → Replayer → Replayer
unfolding do_play do_tick
handle log play r = do_play log r
handle log pause r = record r { is_playing = false }
handle log toggle_play r = if r.is_playing then record r { is_playing = false } else do_play log r
handle log step_forward r = record r {
  is_playing = false;
  current_index = min_ℤ (r.current_index +ℤ pos 1) (last_index log);
}
handle log step_backward r = record r {
  is_playing = false;
  current_index = max_ℤ (r.current_index -ℤ pos 1) (negsuc 0);
}
handle log reset r = record r { is_playing = false; current_index = negsuc 0 }
handle log (go_to_index i) r = record r {
  is_playing = false;
  current_index = max_ℤ (negsuc 0) (min_ℤ i (last_index log));
}
handle log (set_speed v) r = record r { playback_speed = v }
handle log tick r = do_tick log r

-- The state that the hook returns.
unfoldable shown_state : List ActionEntry → List String → Replayer → ReplayState
unfolding derive_state
shown_state log community_cards r =
    let nothing : ReplayState = record {
      current_index = negsuc 0;
      current_street = "preflop";
      pot = 0;
      active_seat = none;
      last_action = none;
      visible_community_cards = [];
      players = [];
    } in
    if ltb_ℤ r.current_index (pos 0) || length log == 0
    then nothing
    else derive_state log community_cards r.current_index
