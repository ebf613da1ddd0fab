-- ===== src/Users/Service.antt =====
-- The operations of UserService. The new ids are the caller's, and a creation under an id in use is
-- refused, as are two users of one name or address.
use cardgames.Prelude.{
  ℕ, ◌+◌, ◌-◌, ◌*◌, Bool, true, false, not, ◌&&◌, ◌||◌, Option, none, some, ◌∷◌, ℤ, pos, neg,
  pos_part, ◌+ℤ◌, ◌-ℤ◌, leb, leb_ℤ, ◌==◌, if◌then◌else◌,
}
use Prim.Native.Nat.{min, ◌/◌}
use Prim.Native.String.{String}
use text.Mathlib.Text.{◌==◌ as same_text}
use cardgames.Store.{
  Wallet, Result, ok, err, ◌>>=◌, ◌>>◌, throw_if, or_throw, find_wallet, find_wallet_of,
  user_not_found, user_exists, name_taken, cannot_ban_admin, cannot_ban_superadmin,
  rake_not_positive, unique_violation, missing_relation,
}
use cardgames.Store.Table.{find, update}
use cardgames.Tournament.Admin.{or_kept}
use cardgames.Users.Defs.{
  Role, user, admin, superadmin, Tier, bronze, User, House, find_user, min_rake, tier_index,
  get_next_tier, calculate_tier_from_rake,
}

pub record UserResponse : Type 0 where
  pub id : ℕ
  pub email : String
  pub username : String
  pub bio : Option String
  pub avatar_id : String
  pub role : Role
  pub tier : Tier
  pub lifetime_rake : ℕ
  pub balance : ℤ
  pub is_banned : Bool
  pub next_tier : Option Tier
  pub next_tier_progress : ℤ
  pub rake_to_next_tier : ℤ

-- `Math.min(100, Math.floor((progressInTier / tierRange) * 100))`, exactly.
abbrev pub progress : ℕ → ℕ → ℕ → ℤ
progress rake lower upper =
    let tier_range = upper - lower in
    if leb lower rake
    then pos (min 100 ((rake - lower) * 100 / tier_range))
    else neg (pos (((lower - rake) * 100 + (tier_range - 1)) / tier_range))

abbrev pub next_progress : User → Option Tier → ℤ
next_progress u none = pos 100
next_progress u (some t) = progress u.lifetime_rake (min_rake u.tier) (min_rake t)

abbrev pub rake_left : User → Option Tier → ℤ
rake_left u none = pos 0
rake_left u (some t) = pos (min_rake t) -ℤ pos u.lifetime_rake

abbrev pub total_balance : Option Wallet → ℤ
total_balance none = pos 0
total_balance (some w) = w.real_balance +ℤ w.bonus_balance

unfoldable pub map_to_user_response : User → Option Wallet → UserResponse
map_to_user_response u wallet = record {
  id = u.id;
  email = u.email;
  username = u.username;
  bio = u.bio;
  avatar_id = u.avatar_id;
  role = u.role;
  tier = u.tier;
  lifetime_rake = u.lifetime_rake;
  balance = total_balance wallet;
  is_banned = u.is_banned;
  next_tier = get_next_tier u.tier;
  next_tier_progress = next_progress u (get_next_tier u.tier);
  rake_to_next_tier = rake_left u (get_next_tier u.tier);
}

-- `user.update` by id, which throws where there is no row; with the row that it returns.
unfoldable pub update_user : ℕ → (User → User) → House → Result (UserResponse × House)
update_user id f h = do
  u ← or_throw (find_user id h) missing_relation
  ok (
    map_to_user_response (f u) (find_wallet_of id h.store),
    record h { users = update (λ v. v.id == id) f h.users },
  )

-- `getProfile` and `getUserById`
unfoldable pub get_profile : ℕ → House → Result UserResponse
get_profile id h = do
  u ← or_throw (find_user id h) user_not_found
  ok (map_to_user_response u (find_wallet_of id h.store))

unfoldable pub update_profile :
    ℕ → Option (Option String) → Option String → House → Result (UserResponse × House)
unfolding update_user
update_profile id bio avatar_id h =
    update_user id
      (λ u. record u { bio = or_kept bio u.bio; avatar_id = or_kept avatar_id u.avatar_id }) h

-- The welcome bonus of 1000 for a user without a wallet.
unfoldable pub ensure_wallet_exists : ℕ → ℕ → House → Result (Unit {0} × House)
ensure_wallet_exists id new_id h = elim (find_wallet_of id h.store) [
  | some w ↦ ok (tt, h)
  | none ↦ elim (find_wallet new_id h.store) [
    | some w ↦ err unique_violation
    | none ↦
        let wallet : Wallet = record {
          id = new_id;
          user_id = id;
          real_balance = pos 0;
          bonus_balance = pos 100000;
        } in
        ok (tt, record h { store = record h.store { wallets = wallet ∷ h.store.wallets } })
  ]
]

pub record CreateUserDto : Type 0 where
  pub username : String
  pub email : String
  pub role : Role
  pub balance : Option ℤ

abbrev pub or_zero : Option ℤ → ℤ
or_zero none = pos 0
or_zero (some b) = b

abbrev pub fresh_user : CreateUserDto → ℕ → User
fresh_user dto id = record {
  id = id;
  email = dto.email;
  username = dto.username;
  bio = none;
  avatar_id = "avatar_1";
  role = dto.role;
  tier = bronze;
  lifetime_rake = 0;
  is_banned = false;
  hands_played = 0;
  hands_won = 0;
  lifetime_earnings = 0;
}

unfoldable pub create_user : CreateUserDto → ℕ → ℕ → House → Result (UserResponse × House)
create_user dto id wallet_id h =
    let wallet : Wallet = record {
      id = wallet_id;
      user_id = id;
      real_balance = or_zero dto.balance;
      bonus_balance = pos 0;
    } in
    let taken =
      find (λ u. same_text u.email dto.email || same_text u.username dto.username) h.users in
    let created = record h {
      users = fresh_user dto id ∷ h.users;
      store = record h.store { wallets = wallet ∷ h.store.wallets };
    } in
    elim taken [
      | some u ↦ err user_exists
      | none ↦ elim (find_user id h) [
        | some u ↦ err unique_violation
        | none ↦ elim (find_wallet wallet_id h.store) [
          | some w ↦ err unique_violation
          | none ↦ ok (map_to_user_response (fresh_user dto id) (some wallet), created)
        ]
      ]
    ]

pub record AdminUpdateUserDto : Type 0 where
  pub username : Option String
  pub email : Option String
  pub role : Option Role
  pub is_banned : Option Bool

abbrev pub is_nonempty : Option String → Bool
is_nonempty none = false
is_nonempty (some String.[]) = false
is_nonempty (some t) = true

abbrev pub with_update : AdminUpdateUserDto → User → User
with_update dto u = record u {
  username = or_kept dto.username u.username;
  email = or_kept dto.email u.email;
  role = or_kept dto.role u.role;
  is_banned = or_kept dto.is_banned u.is_banned;
}

-- One of the alternatives of the query for a duplicate: `{ email: dto.email }`, or `{}`, of which
-- the database says whether it matches.
abbrev pub alternative : Bool → Option String → String → Bool
alternative empty_matches none value = empty_matches
alternative empty_matches (some String.[]) value = empty_matches
alternative empty_matches (some t) value = same_text value t

abbrev pub is_found : Option User → Bool
is_found none = false
is_found (some u) = true

unfoldable pub is_taken : Bool → ℕ → AdminUpdateUserDto → House → Bool
is_taken empty_matches target_id dto h =
    let other = λ (u : User).
      not (u.id == target_id)
      && (alternative empty_matches dto.email u.email
          || alternative empty_matches dto.username u.username) in
    (is_nonempty dto.email || is_nonempty dto.username) && is_found (find other h.users)

unfoldable pub admin_update_user :
    Bool → ℕ → AdminUpdateUserDto → House → Result (UserResponse × House)
unfolding update_user
admin_update_user empty_matches target_id dto h = do
  target ← or_throw (find_user target_id h) user_not_found
  throw_if (is_taken empty_matches target_id dto h) name_taken
  update_user target_id (with_update dto) h

-- The guards of a ban, on the roles of the caller and of the target.
abbrev pub may_ban : Role → Role → Bool → Result (Unit {0})
may_ban admin user is_self = ok tt
may_ban admin target_role is_self = err cannot_ban_admin
may_ban superadmin superadmin is_self = throw_if (not is_self) cannot_ban_superadmin
may_ban _ target_role is_self = ok tt

unfoldable pub ban_user : ℕ → ℕ → Role → House → Result (UserResponse × House)
unfolding update_user
ban_user admin_id target_id admin_role h = do
  target ← or_throw (find_user target_id h) user_not_found
  may_ban admin_role target.role (admin_id == target_id)
  update_user target_id (λ u. record u { is_banned = true }) h

unfoldable pub unban_user : ℕ → ℕ → House → Result (UserResponse × House)
unfolding update_user
unban_user admin_id target_id h = do
  target ← or_throw (find_user target_id h) user_not_found
  update_user target_id (λ u. record u { is_banned = false }) h

unfoldable pub update_role : ℕ → ℕ → Role → House → Result (UserResponse × House)
unfolding update_user
update_role admin_id target_id role h = do
  target ← or_throw (find_user target_id h) user_not_found
  update_user target_id (λ u. record u { role = role }) h

-- The new tier, whether it differs, and the users after.
unfoldable pub add_rake : ℕ → ℤ → House → Result ((Tier × Bool) × House)
add_rake id amount h = do
  throw_if (leb_ℤ amount (pos 0)) rake_not_positive
  u ← or_throw (find_user id h) user_not_found
  let new_rake = u.lifetime_rake + pos_part amount
  let new_tier = calculate_tier_from_rake new_rake
  let written =
      update (λ v. v.id == id) (λ v. record v { lifetime_rake = new_rake; tier = new_tier }) h.users
  ok ((new_tier, not (tier_index new_tier == tier_index u.tier)), record h { users = written })
