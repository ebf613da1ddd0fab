-- ===== src/AnimationQueue/Defs.antt =====
-- The hook's state, its effect, its timer and its calls. A React update is a function of the state
-- before it; an effect also reads the state that was rendered, which may be older.
-- A duration is kept as the base duration and its divisor. Callbacks are known by their event's id.
use cardgames.Prelude.{
  ℕ, Bool, true, false, Option, none, some, List, [], ◌∷◌, ◌++◌, length, ltb, ◌==◌, if◌then◌else◌,
}
use cardgames.Store.Table.{find}

pub data EventType : Type 0 where
  deal bet showdown win fold community_cards : EventType

pub data Priority : Type 0 where
  essential non_essential : Priority

pub record AnimationEvent : Type 0 where
  pub id : ℕ
  pub type : EventType
  pub priority : Priority
  pub duration : ℕ

pub record AnimationState : Type 0 where
  pub current : Option AnimationEvent
  pub queue : List AnimationEvent
  pub is_playing : Bool
  pub speed_multiplier : ℕ

-- The state with the refs: the ids that have a completion callback, and the pending timeout with
-- its divisor. `called` and `settled` record the completion callbacks made and the events that the
-- subscribers were told of, the oldest first.
pub record Hook : Type 0 where
  pub state : AnimationState
  pub on_complete : List ℕ
  pub timeout : Option (AnimationEvent × ℕ)
  pub last_completed : Option AnimationEvent
  pub called : List ℕ
  pub settled : List AnimationEvent

abbrev pub idle_state : AnimationState
idle_state = record { current = none; queue = []; is_playing = false; speed_multiplier = 1 }

pub get_speed_multiplier : ℕ → ℕ
get_speed_multiplier queue_length =
    if ltb 5 queue_length then 4 else if ltb 3 queue_length then 2 else 1

unfoldable pub should_skip : AnimationEvent → ℕ → Bool
should_skip event queue_length = elim event.priority [
  | essential ↦ false
  | non_essential ↦ ltb 5 queue_length
]

-- `onCompleteRef.current.delete(id)`
pub without : ℕ → List ℕ → List ℕ
without k [] = []
without k (x ∷ xs) = if x == k then without k xs else x ∷ without k xs

-- The callback of an event, if it has one: called, then forgotten.
unfoldable pub fire : AnimationEvent → Hook → Hook
unfolding without
fire event h = elim (find (λ k. k == event.id) h.on_complete) [
  | none ↦ h
  | some k ↦ record h {
    called = h.called ++ event.id ∷ [];
    on_complete = without event.id h.on_complete;
  }
]

-- The effect on [state.queue, state.isPlaying]: `seen` is the rendered state, and the updates apply
-- to the hook's latest one.
unfoldable pub process : AnimationState → Hook → Hook
unfolding fire get_speed_multiplier should_skip
process seen h = elim seen.queue [
  | [] ↦ h
  | ◌∷◌ next rest ↦
      let speed_multiplier = get_speed_multiplier (length seen.queue) in
      let fired = fire next h in
      let skipped = record fired {
        state = record fired.state { queue = rest; speed_multiplier = speed_multiplier };
      } in
      let started = record h {
        state = record {
          current = some next;
          queue = rest;
          is_playing = true;
          speed_multiplier = speed_multiplier;
        };
        timeout = some (next, speed_multiplier);
      } in
      if seen.is_playing
      then h
      else if should_skip next (length seen.queue)
      then skipped
      else started
]

-- The timeout's callback.
unfoldable pub complete : Hook → Hook
unfolding fire
complete h = elim h.timeout [
  | none ↦ h
  | some (next, divisor) ↦
      let fired = fire next h in
      record fired {
        timeout = none;
        last_completed = some next;
        settled = fired.settled ++ next ∷ [];
        state = record fired.state { current = none; is_playing = false };
      }
]

unfoldable pub enqueue : AnimationEvent → Bool → Hook → Hook
enqueue event has_callback h = record h {
  on_complete = if has_callback then event.id ∷ without event.id h.on_complete else h.on_complete;
  state = record h.state { queue = h.state.queue ++ event ∷ [] };
}

unfoldable clear : Hook → Hook
clear h = record h { timeout = none; on_complete = []; state = idle_state }

-- What happens next when nothing is enqueued: the effect runs after the render of the latest state,
-- and the timer goes off while an animation plays.
unfoldable pub advance : Hook → Hook
unfolding process complete
advance h = if h.state.is_playing then complete h else process h.state h
