-- ===== src/Turns/Stuck.antt =====
-- A turn whose state cannot be shown.
use cardgames.Prelude.{Bool, true, false, ◌||◌, List, [], ◌∷◌}
use cardgames.Timers.Defs.{Timers}
use cardgames.Turns.Defs.{TurnEffect, your_turn, new_hand_in, advance_street}

-- Whether an effect drives the hand on: a new hand, the end of a street, or a turn.
abbrev pub drives : TurnEffect → Bool
drives (new_hand_in ms) = true
drives advance_street = true
drives (your_turn seat ms bank) = true
drives _ = false

unfoldable pub drive_on : List TurnEffect → Bool
drive_on [] = false
drive_on (e ∷ es) = drives e || drive_on es
