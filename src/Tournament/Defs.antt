-- ===== src/Tournament/Defs.antt =====
-- The rows of a tournament and of an entry, and what the operations share.
use cardgames.Prelude.{
  ℕ, suc, ◌*◌, Bool, Option, none, some, List, [], ◌∷◌, ℤ, pos, negsuc, neg, max_ℤ, ◌==◌, ◌&&◌,
  ◌||◌, if◌then◌else◌,
}
use Prim.Native.String.{String}
use cardgames.Store.{Store, Result, ok, err, unique_violation}
use cardgames.Store.Table.{find, update}

pub data TournamentStatus : Type 0 where
  announced registering late_reg running on_break paused finished cancelled : TournamentStatus

-- What an administrator sets. Prices and the guaranteed pool are not negative (the schemas of
-- libs/shared/src/tournament.dto.ts say so); a moment is a number, an enumeration the text that it is.
pub record Config : Type 0 where
  pub name : String
  pub text : Option String
  pub password : Option String
  pub game_type : String
  pub entry_format : String
  pub buy_in : ℕ
  pub fee : ℕ
  pub guaranteed_prize_pool : ℕ
  pub bounty_amount : Option ℕ
  pub starting_chips : ℕ
  pub blind_structure : String
  pub seat_cap : Option ℕ
  pub min_players_to_start : ℕ
  pub payout_structure : String
  pub start_time : ℕ
  pub late_registration : String
  pub auto_start : Bool
  pub rebuy_enabled : Bool
  pub rebuy_cost : Option ℕ
  pub rebuy_chips : Option ℕ
  pub addon_enabled : Bool
  pub addon_cost : Option ℕ
  pub addon_chips : Option ℕ
  pub max_re_entries : Option ℕ
  pub re_entry_window : Option String

pub record Tournament : Type 0 where
  pub id : ℕ
  pub created_at : ℕ
  pub created_by_id : ℕ
  pub config : Config
  pub status : TournamentStatus
  pub current_blind_level : ℕ
  pub tables_active : ℕ
  pub total_entries : ℤ
  pub players_remaining : ℤ
  pub actual_prize_pool : ℤ
  pub finished_at : Option ℕ

pub record TournamentEntry : Type 0 where
  pub id : ℕ
  pub created_at : ℕ
  pub tournament_id : ℕ
  pub user_id : ℕ
  pub is_active : Bool
  pub rebuys_used : ℕ
  pub addons_used : ℕ
  pub re_entries_used : ℕ
  pub finish_position : Option ℕ
  pub prize_won : Option ℤ

-- The message on the channel `tournament_state_changes`.
pub record StateChange : Type 0 where
  pub tournament_id : ℕ
  pub old_status : TournamentStatus
  pub new_status : TournamentStatus
  pub timestamp : ℕ

pub record Hall : Type 0 where
  pub store : Store
  pub tournaments : List Tournament
  pub entries : List TournamentEntry
  pub changes : List StateChange

abbrev pub status_index : TournamentStatus → ℕ
status_index announced = 0
status_index registering = 1
status_index late_reg = 2
status_index running = 3
status_index on_break = 4
status_index paused = 5
status_index finished = 6
status_index cancelled = 7

abbrev pub same_status : TournamentStatus → TournamentStatus → Bool
same_status a b = status_index a == status_index b

unfoldable pub find_tournament : ℕ → Hall → Option Tournament
find_tournament k h = find (λ t. t.id == k) h.tournaments

-- `findUnique` by the pair of the tournament and the user.
unfoldable pub find_entry : ℕ → ℕ → Hall → Option TournamentEntry
find_entry tournament_id user h =
    find (λ e. e.tournament_id == tournament_id && e.user_id == user) h.entries

-- `tournamentEntry.create`: the id is unique, and the pair [tournamentId, userId].
unfoldable pub create_entry : TournamentEntry → Hall → Result (TournamentEntry × Hall)
create_entry new h =
    elim (find
      (λ e. e.id == new.id || e.tournament_id == new.tournament_id && e.user_id == new.user_id)
      h.entries) [
        | some old ↦ err unique_violation
        | none ↦ ok (new, record h { entries = new ∷ h.entries })
      ]

-- The rows that a `delete` keeps.
unfoldable pub remove {ℓ} : {A : Type ℓ} → (A → Bool) → List A → List A
remove p [] = []
remove p (x ∷ xs) = if p x then remove p xs else x ∷ remove p xs

-- The writes of one tournament's row.
unfoldable pub set_tournament : ℕ → (Tournament → Tournament) → Hall → Hall
set_tournament k f h = record h { tournaments = update (λ t. t.id == k) f h.tournaments }

-- A price times a number of entries.
times : ℕ → ℤ → ℤ
times price (pos n) = pos (price * n)
times price (negsuc n) = neg (pos (price * suc n))

-- `Math.max(buyIn * entries, gtd)`
unfoldable pub prize_pool : Config → ℤ → ℤ
unfolding times
prize_pool c entries = max_ℤ (times c.buy_in entries) (pos c.guaranteed_prize_pool)

-- The hall after a call: the old one if the call threw.
abbrev pub commit_hall {ℓ} : {A : Type ℓ} → Hall → Result (A × Hall) → Hall
commit_hall h (ok (a, after)) = after
commit_hall h (err e) = h
