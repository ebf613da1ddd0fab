-- ===== src/Users/Defs.antt =====
-- Users, roles and tiers. Rake is whole hundredths, as all amounts. The fields that are only kept and
-- shown, such as the biography and the bank account, are one text each or left out with the
-- password, which no operation of the service reads.
use cardgames.Prelude.{ℕ, ◌*◌, Bool, Option, none, some, List, leb, ◌==◌, if◌then◌else◌}
use Prim.Native.String.{String}
use cardgames.Store.{Store}
use cardgames.Store.Table.{find}

pub data Role : Type 0 where
  user admin superadmin : Role

pub data Tier : Type 0 where
  bronze silver gold platinum diamond : Tier

-- The row of a user.
pub record User : Type 0 where
  pub id : ℕ
  pub email : String
  pub username : String
  pub bio : Option String
  pub avatar_id : String
  pub role : Role
  pub tier : Tier
  pub lifetime_rake : ℕ
  pub is_banned : Bool
  pub hands_played : ℕ
  pub hands_won : ℕ
  pub lifetime_earnings : ℕ

-- The users and the database of the other services.
pub record House : Type 0 where
  pub store : Store
  pub users : List User

unfoldable pub find_user : ℕ → House → Option User
find_user id h = find (λ u. u.id == id) h.users

-- `TIER_CONFIG[tier].minRake`
abbrev pub min_rake : Tier → ℕ
min_rake bronze = 0
min_rake silver = 250000 * 100
min_rake gold = 1000000 * 100
min_rake platinum = 5000000 * 100
min_rake diamond = 20000000 * 100

-- `TIER_ORDER.indexOf(tier)`
abbrev pub tier_index : Tier → ℕ
tier_index bronze = 0
tier_index silver = 1
tier_index gold = 2
tier_index platinum = 3
tier_index diamond = 4

abbrev pub get_next_tier : Tier → Option Tier
get_next_tier bronze = some silver
get_next_tier silver = some gold
get_next_tier gold = some platinum
get_next_tier platinum = some diamond
get_next_tier diamond = none

-- The loop runs from the highest tier down.
unfoldable pub calculate_tier_from_rake : ℕ → Tier
calculate_tier_from_rake lifetime_rake =
    if leb (min_rake diamond) lifetime_rake
    then diamond
    else if leb (min_rake platinum) lifetime_rake
    then platinum
    else if leb (min_rake gold) lifetime_rake
    then gold
    else if leb (min_rake silver) lifetime_rake
    then silver
    else bronze
