-- ===== src/Archive/Tests.antt =====
-- A hand of two players, and the house.
use cardgames.Prelude.{ℕ, ◌*◌, refl, ◌≡◌, false, true, none, some, [], ◌∷◌, pos, zero, suc}
use Prim.Native.Nat.{◌/◌}
use cardgames.Store.{Wallet, find_wallet_of, create_transaction}
use cardgames.Store.Table.{find, update}
use cardgames.Wallet.Base.{set_balance}
use cardgames.Wallet.Ledger.{IsSound, ledger_total}
use cardgames.Users.Defs.{User, user, bronze, House, find_user}
use cardgames.Archive.Defs.{Archive, HandJob, Participant, process, find_hand, archive_hand}
use cardgames.Archive.Once.{process-once}
use cardgames.Archive.Rake.{process-IsSound}

abbrev treasury : User
treasury = record {
  id = 1;
  email = "treasury";
  username = "HOUSE_TREASURY";
  bio = none;
  avatar_id = "avatar_1";
  role = user;
  tier = bronze;
  lifetime_rake = 0;
  is_banned = false;
  hands_played = 0;
  hands_won = 0;
  lifetime_earnings = 0;
}

abbrev vault : Wallet
vault = record { id = 5; user_id = 1; real_balance = pos 0; bonus_balance = pos 0 }

abbrev room : House
room = record {
  store = record {
    wallets = vault ∷ [];
    transactions = [];
    audits = [];
    tables = [];
    redis_up = true;
    alerts = [];
  };
  users =
      treasury
      ∷ record treasury { id = 2; username = "anna" }
      ∷ record treasury { id = 3; username = "ben" }
      ∷ [];
}

abbrev empty_archive : Archive
empty_archive = record { house = room; hands = []; results = []; audits = [] }

abbrev seat_of : ℕ → ℕ → ℕ → Participant
seat_of id seat paid = record {
  id = some id;
  seat_number = seat;
  total_contribution = paid;
  hand_description = none;
  cards = [];
}

abbrev hand : HandJob
hand = record {
  hand_id = 77;
  table_id = 7;
  winners = record { seat = 1; amount = 95; hand_description = some "Flush" } ∷ [];
  pot = 100;
  rake = 5;
  community_cards = [];
  participants = seat_of 2 1 50 ∷ seat_of 3 2 50 ∷ [];
  action_log = [];
  timestamp = 1000;
}

abbrev floor_of : ℕ → ℕ → ℕ → ℕ
floor_of a b zero = 0
floor_of a b (suc c) = a * b / suc c

room-IsSound : IsSound room.store
unfolding find ledger_total
room-IsSound = record { unique_wallets = (refl, tt); unique_rows = tt; balanced = (refl, tt) }

archived : (process floor_of "archive-hand" hand 9 empty_archive).1 ≡ false
unfolding process find_hand find archive_hand find_user find_wallet_of update set_balance
    create_transaction
archived = refl

process-once_example :
    let done = (process floor_of "archive-hand" hand 9 empty_archive).0 in
    process floor_of "archive-hand" (record hand { rake = 50 }) 10 done ≡ (done, false)
process-once_example =
    process-once floor_of hand (record hand { rake = 50 }) 9 10 empty_archive refl archived

process-IsSound_example :
    IsSound (process floor_of "archive-hand" hand 9 empty_archive).0.house.store
process-IsSound_example = process-IsSound floor_of "archive-hand" hand 9 empty_archive room-IsSound
