-- ===== src/Users/Tests.antt =====
-- A house with two users.
use cardgames.Prelude.{◌≡◌, refl, true, false, some, none, [], ◌∷◌, arith, pos}
use cardgames.Store.{Store}
use cardgames.Store.Table.{find}
use cardgames.Store.Outcome.{Ensures}
use cardgames.Wallet.Ledger.{IsSound, ledger_total}
use cardgames.Users.Defs.{
  User, House, superadmin, user, silver, find_user, calculate_tier_from_rake,
}
use cardgames.Users.Service.{UserResponse, CreateUserDto, create_user}
use cardgames.Users.Tiers.{AreRanked, rake, ban, create, edits, edits-AreRanked}
use cardgames.Users.Guards.{create_user-unsound}

abbrev anna : User
anna = record {
  id = 10;
  email = "anna@cards.example";
  username = "anna";
  bio = none;
  avatar_id = "avatar_1";
  role = user;
  tier = silver;
  lifetime_rake = 30000000;
  is_banned = false;
  hands_played = 0;
  hands_won = 0;
  lifetime_earnings = 0;
}

abbrev owner : User
owner = record anna {
  id = 11;
  email = "owner@cards.example";
  username = "owner";
  role = superadmin;
}

abbrev empty_store : Store
empty_store = record {
  wallets = [];
  transactions = [];
  audits = [];
  tables = [];
  redis_up = true;
  alerts = [];
}

abbrev house : House
house = record { store = empty_store; users = anna ∷ owner ∷ [] }

house-AreRanked : AreRanked house
unfolding calculate_tier_from_rake
house-AreRanked = (refl, (refl, tt))

abbrev rich : CreateUserDto
rich = record {
  username = "dora";
  email = "dora@cards.example";
  role = user;
  balance = some (pos 700);
}

edits-AreRanked_example :
    AreRanked (edits (rake 10 (pos 80000000) ∷ create rich 12 4 ∷ ban 11 10 superadmin ∷ []) house)
edits-AreRanked_example =
    edits-AreRanked (rake 10 (pos 80000000) ∷ create rich 12 4 ∷ ban 11 10 superadmin ∷ []) house
      house-AreRanked

owner_found : find_user 11 house ≡ some owner
unfolding find_user find
owner_found = refl

create_user-unsound_example :
    Ensures (λ (r : UserResponse × House). ¬ IsSound r.1.store) (create_user rich 12 4 house)
unfolding ledger_total
create_user-unsound_example = create_user-unsound rich 12 4 house (pos 700) refl (omega arith) refl
