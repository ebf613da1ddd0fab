-- ===== src/AnimationQueue/Tests.antt =====
-- The theorems on the queue at a queue of two events.
use cardgames.Prelude.{ℕ, ◌≡◌, ◌≤◌, ◌<◌, ◌⊎◌, refl, none, List, [], ◌∷◌, ◌++◌}
use cardgames.AnimationQueue.Defs.{
  AnimationEvent, Hook, deal, bet, essential, non_essential, idle_state,
}
use cardgames.AnimationQueue.Drain.{IsDrained, advances, queue_drains}
use cardgames.AnimationQueue.Played.{essentials}

abbrev dealing : AnimationEvent
dealing = record { id = 1; type = deal; priority = essential; duration = 300 }

abbrev betting : AnimationEvent
betting = record { id = 2; type = bet; priority = non_essential; duration = 200 }

abbrev burst : Hook
burst = record {
  state = record idle_state { queue = dealing ∷ betting ∷ [] };
  on_complete = 1 ∷ [];
  timeout = none;
  last_completed = none;
  called = [];
  settled = [];
}

queue_drains_example :
    (n : ℕ) × (shown : List AnimationEvent) × ((n ≤ 4)
      × IsDrained ([] ++ shown) (advances n burst)
      × (essentials shown ≡ essentials (dealing ∷ betting ∷ []))
      × ((5 < 2) ⊎ (shown ≡ dealing ∷ betting ∷ [])))
queue_drains_example = queue_drains burst refl
