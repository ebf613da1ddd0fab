-- ===== src/Timers/Tests.antt =====
-- Turns at two tables.
use cardgames.Prelude.{refl, true, none, [], ◌∷◌, arith}
use cardgames.Timers.Defs.{Timers}
use cardgames.Timers.Count.{IsSingle, pending, untracked}
use cardgames.Timers.Single.{schedule, cancel, due, happen_all, happen_all-IsSingle}

abbrev idle : Timers
idle = record { queue = []; tracked = λ t. none }

idle-IsSingle : IsSingle idle
unfolding pending untracked
idle-IsSingle = record { known = λ t. refl; single = λ t. omega arith }

happen_all-IsSingle_example : IsSingle (
    happen_all
      (λ t m. true)
      (schedule 7 1 30000 1000
        ∷ schedule 8 2 30000 1000
        ∷ schedule 7 2 30000 2000
        ∷ due 8 1000
        ∷ cancel 7
        ∷ [])
      idle)
happen_all-IsSingle_example =
    happen_all-IsSingle (λ t m. true) (λ t m. refl)
      (schedule 7 1 30000 1000
        ∷ schedule 8 2 30000 1000
        ∷ schedule 7 2 30000 2000
        ∷ due 8 1000
        ∷ cancel 7
        ∷ [])
      idle idle-IsSingle
