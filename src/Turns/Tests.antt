-- ===== src/Turns/Tests.antt =====
-- A turn that ends, and the next seat's turn.
use cardgames.Prelude.{ℕ, refl, true, false, Option, none, some, [], arith}
use cardgames.Timers.Defs.{Timers}
use cardgames.Timers.Count.{IsSingle, pending, untracked}
use cardgames.Turns.Defs.{Fold, TimeoutReply, folded, ScheduleFault, no_fault, process_timeout}
use cardgames.Turns.Driven.{EndsTurn, process_timeout-EndsTurn}

-- The job of the turn has left the queue; its key remains.
abbrev fired : Timers
fired = record { queue = []; tracked = λ t. some 1000 }

fired-IsSingle : IsSingle fired
unfolding pending untracked
fired-IsSingle = record { known = λ t. refl; single = λ t. omega arith }

-- The turn is at seat 2, and passes to seat 4.
abbrev turn_at : ℕ → ℕ → Option ℕ
turn_at table seat = some seat

abbrev no_limit : ℕ → ℕ → Option (Option ℕ)
no_limit table seat = some none

abbrev fold : Fold
fold = record {
  benched = true;
  player_id = some 3;
  hand_complete = false;
  winning_seat = none;
  next_street = false;
  next_turn = some 4;
}

abbrev folds : ℕ → ℕ → ℕ → TimeoutReply × ℕ
folds table seat t = (folded fold, 4)

abbrev works : ℕ → ℕ → ℕ → ScheduleFault
works table seat t = no_fault

process_timeout-EndsTurn_example : EndsTurn 7 31000 2 none fired (folded fold) (
    process_timeout
      (λ t m. true)
      turn_at
      no_limit
      folds
      (λ t u. true)
      works
      "turn-timeout"
      7
      2
      31000
      fired
      2)
process_timeout-EndsTurn_example =
    process_timeout-EndsTurn (λ t m. true) turn_at no_limit folds (λ t u. true) works 7 31000 fired
      (λ t m. refl) fired-IsSingle (λ t. refl) none (λ t. refl) (λ seat t. refl) 2 2 refl
