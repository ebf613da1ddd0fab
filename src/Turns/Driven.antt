-- ===== src/Turns/Driven.antt =====
-- How the hand goes on after the end of a turn.
use cardgames.Prelude.{
  ℕ, ◌≡◌, refl, Bool, true, false, Option, none, some, List, [], ◌∷◌, ◌++◌, inl, inr, ==_refl,
  Bool-cases,
}
use mathlib.Core.List.{Memᴰ}
use mathlib.Core.List.Memᴰ
use cardgames.Store.Table.{find}
use cardgames.Timers.Defs.{has_id, Timers, schedule_timeout}
use cardgames.Timers.Count.{IsSingle}
use cardgames.Timers.Single.{schedule_timeout-find}
use cardgames.Turns.Defs.{
  Fold, TimeoutReply, thrown, failed, other_action, extended, folded, TurnEffect, your_turn,
  fold_action, broadcast_state, hand_result, new_hand_in, advance_street, TurnRun, duration_or,
  bench_effects, turn_time_ms, ScheduleFault, no_fault, pass_turn, go_on, answer, process_timeout,
}

-- A turn of a seat has begun at the table: its job with its time is in the queue, and both are sent.
abbrev pub HasTurn : ℕ → ℕ → ℕ → ℕ → Bool → Timers → List TurnEffect → Type 0
HasTurn table now seat ms bank timers effects =
    (find (has_id table now) timers.queue
      ≡ some (record { table = table; moment = now; seat = seat; delay = ms }))
    × Memᴰ (your_turn seat ms bank) effects

-- How a hand goes on after a fold with the timers there were: the table hears the winner and a new
-- hand is planned; or the street ends; or the turn of the next seat begins; or the fold names nothing.
abbrev pub Passes :
    ℕ
    → ℕ
    → Option ℕ
    → Option ℕ
    → Bool
    → Bool
    → Option ℕ
    → Timers
    → Timers
    → List TurnEffect
    → Type 0
Passes table now setting winner true street next before after effects =
    Memᴰ (hand_result winner) effects × Memᴰ (new_hand_in 5000) effects × (after ≡ before)
Passes table now setting winner false true next before after effects =
    Memᴰ advance_street effects × (after ≡ before)
Passes table now setting winner false false none before after effects = after ≡ before
Passes table now setting winner false false (some next) before after effects =
    HasTurn table now next (turn_time_ms setting) false after effects

abbrev pub PassesOn : ℕ → ℕ → Option ℕ → Fold → Timers → Timers → List TurnEffect → Type 0
PassesOn table now setting f before after effects =
    Passes table now setting f.winning_seat f.hand_complete f.next_street f.next_turn before after
      effects

-- How a turn ends, by the answer of the script.
abbrev pub EndsTurn :
    {T : Type 0} → ℕ → ℕ → ℕ → Option ℕ → Timers → TimeoutReply → TurnRun T → Type 0
EndsTurn table now seat setting before (extended d balance) run =
    HasTurn table now seat (duration_or d) true run.timers run.effects
EndsTurn table now seat setting before (folded f) run =
    Memᴰ (fold_action seat) run.effects × PassesOn table now setting f before run.timers run.effects
EndsTurn table now seat setting before _ run = (run.timers ≡ before) × (run.effects ≡ [])

module _ {T : Type 0} (removable : ℕ → ℕ → Bool) (turn_seat : ℕ → T → Option ℕ)
    (turn_time : ℕ → T → Option (Option ℕ)) (timeout : ℕ → ℕ → T → TimeoutReply × T)
    (shows : ℕ → T → Bool) (fault : ℕ → ℕ → T → ScheduleFault) (table now : ℕ) (s : Timers) where
  module _ (removes : (t m : ℕ) → removable t m ≡ true) (h : IsSingle s)
      (shown : (t : T) → shows table t ≡ true) (setting : Option ℕ)
      (read : (t : T) → turn_time table t ≡ some setting)
      (works : (seat : ℕ) (t : T) → fault table seat t ≡ no_fault) where
    begun :
        (seat ms : ℕ) (bank : Bool) (effects : List TurnEffect)
        → Memᴰ (your_turn seat ms bank) effects
        → HasTurn table now seat ms bank (schedule_timeout removable table seat ms now s) effects
    begun seat ms bank effects told =
        (schedule_timeout-find removable removes table seat ms now s h, told)

    -- What holds after a fold holds with what is sent before it.
    later :
        (winner : Option ℕ) (complete street : Bool) (next : Option ℕ) (earlier : List TurnEffect)
        (after : Timers) (effects : List TurnEffect)
        → Passes table now setting winner complete street next s after effects
        → Passes table now setting winner complete street next s after (earlier ++ effects)
    later winner true street next earlier after effects (told, planned, same) =
        (Memᴰ.append_right earlier told, Memᴰ.append_right earlier planned, same)
    later winner false true next earlier after effects (street, same) =
        (Memᴰ.append_right earlier street, same)
    later winner false false none earlier after effects same = same
    later winner false false (some next) earlier after effects (job, told) =
        (job, Memᴰ.append_right earlier told)

    passed :
        (winner next : Option ℕ) (t : T)
        → let r = pass_turn removable turn_seat turn_time timeout shows fault table next now s t in
          Passes table now setting winner false false next s r.0 r.1
    passed winner none t = refl
    passed winner (some next) t = rw (read t, works next t) (begun next _ false _ (Memᴰ.head refl))

    gone_on :
        (f : Fold) (t : T)
        → let r = go_on removable turn_seat turn_time timeout shows fault table f now s t in
          PassesOn table now setting f s r.0 r.1
    gone_on f t = elim (Bool-cases f.hand_complete) [
      | inl over ↦ rw over (Memᴰ.head refl, Memᴰ.tail (Memᴰ.head refl), refl)
      | inr more ↦ elim (Bool-cases f.next_street) [
        | inl street ↦ rw (more, street) (Memᴰ.head refl, refl)
        | inr same ↦ rw (more, same) (passed f.winning_seat f.next_turn t)
      ]
    ]

    answered :
        (seat : ℕ) (r : TimeoutReply × T)
        → EndsTurn table now seat setting s r.0
            (answer removable turn_seat turn_time timeout shows fault table seat now s r)
    answered seat (extended d b, t) =
        rw (works seat t) (begun seat (duration_or d) true _ (Memᴰ.tail (Memᴰ.head refl)))
    answered seat (folded f, t) =
        let next = go_on removable turn_seat turn_time timeout shows fault table f now s t in
        let before = fold_action seat ∷ bench_effects seat f in
        let part = λ (earlier : List TurnEffect) (es : List TurnEffect).
          later f.winning_seat f.hand_complete f.next_street f.next_turn earlier next.0 es in
        rw (shown t) (
          Memᴰ.head refl,
          part before (broadcast_state ∷ next.1) (part (broadcast_state ∷ []) next.1 (gone_on f t)),
        )
    answered seat (thrown, t) = (refl, refl)
    answered seat (failed, t) = (refl, refl)
    answered seat (other_action, t) = (refl, refl)

    -- How a turn ends by its timer: where the removal of a job succeeds, a table has at most one timer,
    -- the turn is the seat's, and neither the broadcast, nor the setting of the turn time, nor the
    -- scheduling throws, a turn that the script extends begins again with the job and the time of the
    -- answer; after a fold, which is sent, the winner is told and a new hand planned, or the street
    -- ends, or the next seat's turn begins with its job and its time, by the first of these that the
    -- answer names; every other answer leaves the timers and sends nothing.
    pub process_timeout-EndsTurn :
        (seat : ℕ) (t : T)
        → turn_seat table t ≡ some seat
        → EndsTurn table now seat setting s (timeout table seat t).0 (
            process_timeout removable turn_seat turn_time timeout shows fault "turn-timeout" table
              seat now s t)
    unfolding process_timeout
    process_timeout-EndsTurn seat t turn =
        rw (turn, ==_refl seat) (answered seat (timeout table seat t))
