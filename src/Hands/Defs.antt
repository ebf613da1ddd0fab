-- ===== src/Hands/Defs.antt =====
-- `getHandHistory`, `getHandDetail` and `getMyHandHistory`. The order in which the database lists the
-- rows of one query is an argument of each call: it is newest first, and hands that end at the same
-- moment may come in another order in every query. The rows of the tables are a parameter.
use cardgames.Prelude.{
  ℕ, zero, suc, ◌+◌, ◌*◌, ◌-◌, max, Bool, Option, none, some, List, [], ◌∷◌, ℤ, pos, map, length,
  take, ltb, ◌==◌, if◌then◌else◌,
}
use Prim.Native.Nat.{min, ◌/◌}
use Prim.Native.String.{String}
use cardgames.Store.Table.{find}
use cardgames.Users.Defs.{User, House, find_user}
use cardgames.Archive.Defs.{HandHistory, HandPlayerResult, Archive, find_hand, or_other}

unfoldable pub filter {ℓ} : {A : Type ℓ} → (A → Bool) → List A → List A
filter p [] = []
filter p (x ∷ xs) = let rest = filter p xs in if p x then x ∷ rest else rest

abbrev pub drop {ℓ} : {A : Type ℓ} → ℕ → List A → List A
drop zero xs = xs
drop (suc n) [] = []
drop (suc n) (x ∷ xs) = drop n xs

pub record HandWinner : Type 0 where
  pub seat : ℕ
  pub amount : ℕ
  pub hand_description : Option String
  pub name : Option String

-- What a player sees of his own part in a hand.
pub record Hero : Type 0 where
  pub seat : Option ℕ
  pub net_profit : ℤ
  pub hand_description : Option String
  pub cards : List String

pub record HandEntry : Type 0 where
  pub hand_id : ℕ
  pub end_time : ℕ
  pub community_cards : List String
  pub pot : ℕ
  pub hero : Hero
  pub winners : List HandWinner

pub record WinnerDetail : Type 0 where
  pub winner : HandWinner
  pub cards : List String

pub record HandDetail : Type 0 where
  pub hand : HandHistory
  pub hero : Hero
  pub winners : List WinnerDetail

pub record TableRow : Type 0 where
  pub name : String
  pub small_blind : ℕ
  pub big_blind : ℕ

pub record MyHand : Type 0 where
  pub hand_id : ℕ
  pub table_id : ℕ
  pub end_time : ℕ
  pub community_cards : List String
  pub pot : ℕ
  pub table_name : String
  pub stakes : Option (ℕ × ℕ)
  pub hero : Hero
  pub winners : List HandWinner

-- The entries and the `meta` of a page; an entry is none where its hand is missing, which the foreign
-- key excludes.
pub record MyPage : Type 0 where
  pub entries : List (Option MyHand)
  pub total : ℕ
  pub page : ℕ
  pub limit : ℕ
  pub total_pages : ℕ

abbrev pub username_of : Option User → Option String
username_of none = none
username_of (some u) = some u.username

-- `userMap.get(pr.userId) || null`
abbrev pub winner_name : ℕ → House → Option String
winner_name id h = or_other (username_of (find_user id h)) none

abbrev pub results_of : ℕ → List HandPlayerResult → List HandPlayerResult
results_of hand rs = filter (λ r. r.hand_id == hand) rs

abbrev pub hero_of : Option HandPlayerResult → Hero
hero_of none = record { seat = none; net_profit = pos 0; hand_description = none; cards = [] }
hero_of (some r) = record {
  seat = some r.seat;
  net_profit = r.net_profit;
  hand_description = r.hand_description;
  cards = r.cards;
}

abbrev pub hero_result : ℕ → List HandPlayerResult → Option HandPlayerResult
hero_result user rs = find (λ r. r.user_id == user) rs

abbrev pub winner_entry : House → HandPlayerResult → HandWinner
winner_entry h r = record {
  seat = r.seat;
  amount = r.win_amount;
  hand_description = r.hand_description;
  name = winner_name r.user_id h;
}

abbrev pub winners_of : House → List HandPlayerResult → List HandWinner
winners_of h rs = map (winner_entry h) (filter (λ r. ltb 0 r.win_amount) rs)

abbrev pub history_entry : ℕ → Archive → HandHistory → HandEntry
history_entry user a h =
    let rs = results_of h.id a.results in
    record {
      hand_id = h.id;
      end_time = h.end_time;
      community_cards = h.community_cards;
      pot = h.pot;
      hero = hero_of (hero_result user rs);
      winners = winners_of a.house rs;
    }

-- The last 20 hands of a table.
unfoldable pub get_hand_history :
    (List HandHistory → List HandHistory) → ℕ → ℕ → Archive → List HandEntry
get_hand_history newest_first table user a =
    map (history_entry user a) (take 20 (newest_first (filter (λ h. h.table_id == table) a.hands)))

abbrev pub winner_detail : House → HandPlayerResult → WinnerDetail
winner_detail h r = record { winner = winner_entry h r; cards = r.cards }

-- One hand; none where it is not found.
unfoldable pub get_hand_detail : ℕ → ℕ → Archive → Option HandDetail
get_hand_detail hand user a = elim (find_hand hand a) [
  | none ↦ none
  | some h ↦
      let rs = results_of h.id a.results in
      some (record {
        hand = h;
        hero = hero_of (hero_result user rs);
        winners = map (winner_detail a.house) (filter (λ r. ltb 0 r.win_amount) rs);
      })
]

abbrev pub table_name_of : Option TableRow → String
table_name_of none = "Unknown Table"
table_name_of (some t) = t.name

abbrev pub stakes_of : Option TableRow → Option (ℕ × ℕ)
stakes_of none = none
stakes_of (some t) = some (t.small_blind, t.big_blind)

-- An entry of a page, from a result of the player.
abbrev pub my_entry : (ℕ → Option TableRow) → Archive → HandPlayerResult → Option MyHand
my_entry tables a r = elim (find_hand r.hand_id a) [
  | none ↦ none
  | some h ↦ some (record {
    hand_id = h.id;
    table_id = h.table_id;
    end_time = h.end_time;
    community_cards = h.community_cards;
    pot = h.pot;
    table_name = table_name_of (tables h.table_id);
    stakes = stakes_of (tables h.table_id);
    hero = hero_of (some r);
    winners = winners_of a.house (results_of h.id a.results);
  })
]

abbrev pub safe_limit : ℕ → ℕ
safe_limit limit = min (max limit 1) 50

-- `Math.ceil(total / safeLimit)`
abbrev pub total_pages_of : ℕ → ℕ → ℕ
total_pages_of total size = (total + (size - 1)) / size

abbrev pub own_results : ℕ → Archive → List HandPlayerResult
own_results user a = filter (λ r. r.user_id == user) a.results

-- A page of the player's hands at all tables, in the order of this query; none where the database refuses to skip a negative
-- number of rows.
module _ (newest_first : List HandHistory → List HandPlayerResult → List HandPlayerResult)
    (tables : ℕ → Option TableRow) where
  unfoldable pub get_my_hand_history : ℕ → ℕ → ℕ → Archive → Option MyPage
  get_my_hand_history user zero limit a = none
  get_my_hand_history user (suc p) limit a =
      let size = safe_limit limit in
      let own = own_results user a in
      some (record {
        entries = map (my_entry tables a) (take size (drop (p * size) (newest_first a.hands own)));
        total = length own;
        page = suc p;
        limit = size;
        total_pages = total_pages_of (length own) size;
      })
