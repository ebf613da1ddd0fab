-- ===== src/Users/Shown.antt =====
-- The progress bar of a user.
use cardgames.Prelude.{
  ℕ, ◌≤◌, ◌<◌, ◌≡◌, refl, inl, inr, true, Option, none, some, arith, ℤ, pos, ◌-ℤ◌, ◌≤ℤ◌, ◌<ℤ◌,
  int_laws, leb, Option-cases,
}
use cardgames.Store.{Wallet}
use cardgames.Users.Defs.{
  Tier, bronze, silver, gold, platinum, diamond, User, min_rake, get_next_tier,
  calculate_tier_from_rake,
}
use cardgames.Users.Service.{map_to_user_response, progress}
use cardgames.Users.Tiers.{IsRanked}

lower_bound : (r : ℕ) → min_rake (calculate_tier_from_rake r) ≤ r
unfolding calculate_tier_from_rake
lower_bound r = ground arith

upper_bound :
    (r : ℕ) (t : Tier) → get_next_tier (calculate_tier_from_rake r) ≡ some t → r < min_rake t
unfolding calculate_tier_from_rake
upper_bound r bronze e = ground arith
upper_bound r silver e = ground arith
upper_bound r gold e = ground arith
upper_bound r platinum e = ground arith
upper_bound r diamond e = ground arith

-- What is left to the next tier is above 0, or there is no next tier.
abbrev pub IsAhead : Option Tier → ℤ → Type 0
IsAhead none left = left ≡ pos 0
IsAhead (some t) left = pos 0 <ℤ left

-- A user whose tier is that of the user's rake is shown a progress from 0 to 100, and rake left to
-- the next tier that is above 0, or 0 where there is no higher tier.
map_to_user_response_lem :
    (u : User) (w : Option Wallet)
    → IsRanked u
    → let r = map_to_user_response u w in
      (pos 0 ≤ℤ r.next_tier_progress)
      × (r.next_tier_progress ≤ℤ pos 100)
      × IsAhead r.next_tier r.rake_to_next_tier
unfolding map_to_user_response
map_to_user_response_lem u w ranked = elim (Option-cases (get_next_tier u.tier)) [
  | inl top ↦ rw top (omega arith, omega arith, refl)
  | inr (t, e) ↦
      let above : min_rake u.tier ≤ u.lifetime_rake = rw ranked (lower_bound u.lifetime_rake) in
      let below : u.lifetime_rake < min_rake t = upper_bound u.lifetime_rake t (rw (← ranked) e) in
      rw e (shown u.lifetime_rake (min_rake u.tier) (min_rake t) above below)
]
  where
    shown :
        (r l m : ℕ)
        → l ≤ r
        → r < m
        → (pos 0 ≤ℤ progress r l m) × (progress r l m ≤ℤ pos 100) × (pos 0 <ℤ (pos m -ℤ pos r))
    shown r l m a b = rw reached (omega arith, omega arith, omega int_laws)
      where
        reached : leb l r ≡ true
        reached = ground arith
