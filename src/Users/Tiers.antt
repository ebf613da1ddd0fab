-- ===== src/Users/Tiers.antt =====
-- The tier of a user follows the rake.
use cardgames.Prelude.{
  ℕ, ◌+◌, ◌≤◌, ◌≡◌, refl, inl, inr, Bool, ◌||◌, Option, some, List, [], ◌∷◌, arith, ℤ, pos,
  pos_part, leb_ℤ, All, Bool-cases, Option-cases,
}
use Prim.Native.String.{String}
use text.Mathlib.Text.{◌==◌ as same_text}
use cardgames.Store.{find_wallet, find_wallet_of, Result, ok, err, ◌>>=◌, throw_if, or_throw}
use cardgames.Store.Outcome.{
  Ensures, Ensures-bind, Ensures-return, Ensures-nothing, Ensures-throw, or_throw_lem,
}
use cardgames.Store.Table.{find, update}
use cardgames.Users.Defs.{
  Role, Tier, bronze, User, House, find_user, tier_index, calculate_tier_from_rake,
}
use cardgames.Users.Service.{
  UserResponse, CreateUserDto, AdminUpdateUserDto, admin_update_user, update_user, update_profile,
  ensure_wallet_exists, create_user, ban_user, unban_user, update_role, add_rake,
}

-- The tier of a row is the one that its rake gives.
abbrev pub IsRanked : User → Type 0
IsRanked u = u.tier ≡ calculate_tier_from_rake u.lifetime_rake

abbrev pub AreRanked : House → Type 0
AreRanked h = All IsRanked h.users

All-update_each :
    (p : User → Bool) (f : User → User) (us : List User)
    → ((u : User) → IsRanked u → IsRanked (f u))
    → All IsRanked us
    → All IsRanked (update p f us)
unfolding update
All-update_each p f [] keeps a = tt
All-update_each p f (u ∷ us) keeps a = elim (Bool-cases (p u)) [
  | inl e ↦ rw e (keeps u a.0, All-update_each p f us keeps a.1)
  | inr e ↦ rw e (a.0, All-update_each p f us keeps a.1)
]

update_user-AreRanked :
    (id : ℕ) (f : User → User) (h : House)
    → ((u : User) → IsRanked u → IsRanked (f u))
    → AreRanked h
    → Ensures (λ (r : UserResponse × House). AreRanked r.1) (update_user id f h)
unfolding update_user
update_user-AreRanked id f h keeps a =
    Ensures-bind _ (λ (r : UserResponse × House). AreRanked r.1) _ _
      (or_throw_lem (find_user id h) _)
      λ u found. Ensures-return _ _ (All-update_each _ f h.users keeps a)

calculate_tier_mono :
    (a b : ℕ)
    → a ≤ b
    → tier_index (calculate_tier_from_rake a) ≤ tier_index (calculate_tier_from_rake b)
unfolding calculate_tier_from_rake
calculate_tier_mono a b h = ground arith

-- The house after a call: the old one if the call threw.
abbrev pub commit_house {ℓ} : {A : Type ℓ} → House → Result (A × House) → House
commit_house h (ok (a, after)) = after
commit_house h (err e) = h

-- A call of the service that may write.
pub data Edit : Type 0 where
  profile : ℕ → Option (Option String) → Option String → Edit
  heal : ℕ → ℕ → Edit
  create : CreateUserDto → ℕ → ℕ → Edit
  amend : Bool → ℕ → AdminUpdateUserDto → Edit
  ban : ℕ → ℕ → Role → Edit
  unban : ℕ → ℕ → Edit
  promote : ℕ → ℕ → Role → Edit
  rake : ℕ → ℤ → Edit

unfoldable pub edit : Edit → House → House
edit (profile id bio avatar_id) h = commit_house h (update_profile id bio avatar_id h)
edit (heal id new_id) h = commit_house h (ensure_wallet_exists id new_id h)
edit (create dto id wallet_id) h = commit_house h (create_user dto id wallet_id h)
edit (amend empty_matches target_id dto) h =
    commit_house h (admin_update_user empty_matches target_id dto h)
edit (ban admin_id target_id role) h = commit_house h (ban_user admin_id target_id role h)
edit (unban admin_id target_id) h = commit_house h (unban_user admin_id target_id h)
edit (promote admin_id target_id role) h = commit_house h (update_role admin_id target_id role h)
edit (rake id amount) h = commit_house h (add_rake id amount h)

unfoldable pub edits : List Edit → House → House
unfolding edit
edits [] h = h
edits (e ∷ es) h = edits es (edit e h)

commit_house-AreRanked {ℓ} :
    {A : Type ℓ} (h : House) (m : Result (A × House))
    → AreRanked h
    → Ensures (λ (r : A × House). AreRanked r.1) m
    → AreRanked (commit_house h m)
unfolding Ensures
commit_house-AreRanked h (ok (a, after)) before new = new
commit_house-AreRanked h (err e) before new = before

add_rake-AreRanked :
    (id : ℕ) (amount : ℤ) (h : House)
    → AreRanked h
    → Ensures (λ (r : (Tier × Bool) × House). AreRanked r.1) (add_rake id amount h)
unfolding add_rake
add_rake-AreRanked id amount h a =
    Ensures-bind _ (λ (r : (Tier × Bool) × House). AreRanked r.1) _ _
      (Ensures-nothing (throw_if (leb_ℤ amount (pos 0)) _))
      λ x _.
        Ensures-bind _ (λ (r : (Tier × Bool) × House). AreRanked r.1) _ _
          (or_throw_lem (find_user id h) _)
          λ u found. Ensures-return _ _ (All-update_each _ _ h.users (λ v r. refl) a)

create_user-AreRanked :
    (dto : CreateUserDto) (id wallet_id : ℕ) (h : House)
    → AreRanked h
    → Ensures (λ (r : UserResponse × House). AreRanked r.1) (create_user dto id wallet_id h)
unfolding create_user
create_user-AreRanked dto id wallet_id h a =
    elim (Option-cases
      (find (λ u. same_text u.email dto.email || same_text u.username dto.username) h.users)) [
        | inr (u, e) ↦ rw (create_user, e) (Ensures-throw _ _)
        | inl e ↦ elim (Option-cases (find_user id h)) [
          | inr (u, e') ↦ rw (create_user, e, e') (Ensures-throw _ _)
          | inl e' ↦ elim (Option-cases (find_wallet wallet_id h.store)) [
            | inr (w, e'') ↦ rw (create_user, e, e', e'') (Ensures-throw _ _)
            | inl e'' ↦ rw (create_user, e, e', e'') (Ensures-return _ _ (unranked, a))
          ]
        ]
      ]
  where
    unranked : bronze ≡ calculate_tier_from_rake 0
    unranked = unfold calculate_tier_from_rake in refl

heal-AreRanked :
    (id new_id : ℕ) (h : House)
    → AreRanked h
    → Ensures (λ (r : Unit {0} × House). AreRanked r.1) (ensure_wallet_exists id new_id h)
unfolding ensure_wallet_exists
heal-AreRanked id new_id h a = elim (Option-cases (find_wallet_of id h.store)) [
  | inr (w, e) ↦ rw (ensure_wallet_exists, e) (Ensures-return _ _ a)
  | inl e ↦ elim (Option-cases (find_wallet new_id h.store)) [
    | inr (w, e') ↦ rw (ensure_wallet_exists, e, e') (Ensures-throw _ _)
    | inl e' ↦ rw (ensure_wallet_exists, e, e') (Ensures-return _ _ a)
  ]
]

-- A change of a row that keeps the rake and the tier, after some checks.
module _ (id : ℕ) (f : User → User) (h : House) (a : AreRanked h)
    (keeps : (u : User) → IsRanked u → IsRanked (f u)) where
  abbrev Fine : Result (UserResponse × House) → Type 0
  Fine m = Ensures (λ (r : UserResponse × House). AreRanked r.1) m

  after_check {ℓ} : {A : Type ℓ} (check : Result A) → Fine (check >>= λ x. update_user id f h)
  after_check check =
      Ensures-bind _ (λ (r : UserResponse × House). AreRanked r.1) check _ (Ensures-nothing check)
        λ x y. update_user-AreRanked id f h keeps a

profile-AreRanked :
    (id : ℕ) (bio : Option (Option String)) (avatar_id : Option String) (h : House)
    → AreRanked h
    → Ensures (λ (r : UserResponse × House). AreRanked r.1) (update_profile id bio avatar_id h)
unfolding update_profile
profile-AreRanked id bio avatar_id h a = update_user-AreRanked id _ h (λ u r. r) a

amend-AreRanked :
    (empty_matches : Bool) (target_id : ℕ) (dto : AdminUpdateUserDto) (h : House)
    → AreRanked h
    → Ensures
        (λ (r : UserResponse × House). AreRanked r.1)
        (admin_update_user empty_matches target_id dto h)
unfolding admin_update_user
amend-AreRanked empty_matches target_id dto h a =
    Ensures-bind _ (λ (r : UserResponse × House). AreRanked r.1) _ _
      (Ensures-nothing (or_throw (find_user target_id h) _))
      λ u _. after_check target_id _ h a (λ v r. r) _

ban-AreRanked :
    (admin_id target_id : ℕ) (role : Role) (h : House)
    → AreRanked h
    → Ensures (λ (r : UserResponse × House). AreRanked r.1) (ban_user admin_id target_id role h)
unfolding ban_user
ban-AreRanked admin_id target_id role h a =
    Ensures-bind _ (λ (r : UserResponse × House). AreRanked r.1) _ _
      (Ensures-nothing (or_throw (find_user target_id h) _))
      λ u _. after_check target_id _ h a (λ v r. r) _

unban-AreRanked :
    (admin_id target_id : ℕ) (h : House)
    → AreRanked h
    → Ensures (λ (r : UserResponse × House). AreRanked r.1) (unban_user admin_id target_id h)
unfolding unban_user
unban-AreRanked admin_id target_id h a = after_check target_id _ h a (λ v r. r) _

promote-AreRanked :
    (admin_id target_id : ℕ) (role : Role) (h : House)
    → AreRanked h
    → Ensures (λ (r : UserResponse × House). AreRanked r.1) (update_role admin_id target_id role h)
unfolding update_role
promote-AreRanked admin_id target_id role h a = after_check target_id _ h a (λ v r. r) _

edit-AreRanked : (e : Edit) (h : House) → AreRanked h → AreRanked (edit e h)
unfolding edit
edit-AreRanked (profile id bio avatar_id) h a =
    commit_house-AreRanked h _ a (profile-AreRanked id bio avatar_id h a)
edit-AreRanked (heal id new_id) h a = commit_house-AreRanked h _ a (heal-AreRanked id new_id h a)
edit-AreRanked (create dto id wallet_id) h a =
    commit_house-AreRanked h _ a (create_user-AreRanked dto id wallet_id h a)
edit-AreRanked (amend empty_matches target_id dto) h a =
    commit_house-AreRanked h _ a (amend-AreRanked empty_matches target_id dto h a)
edit-AreRanked (ban admin_id target_id role) h a =
    commit_house-AreRanked h _ a (ban-AreRanked admin_id target_id role h a)
edit-AreRanked (unban admin_id target_id) h a =
    commit_house-AreRanked h _ a (unban-AreRanked admin_id target_id h a)
edit-AreRanked (promote admin_id target_id role) h a =
    commit_house-AreRanked h _ a (promote-AreRanked admin_id target_id role h a)
edit-AreRanked (rake id amount) h a =
    commit_house-AreRanked h _ a (add_rake-AreRanked id amount h a)

-- Where the tier of every user is the one that the user's rake gives, it is so after any sequence
-- of calls: changes of a profile, wallets created for users without one, new users, updates by
-- an administrator, bans, their ends, changes of a role, and rake, refused calls included.
pub edits-AreRanked : (es : List Edit) (h : House) → AreRanked h → AreRanked (edits es h)
unfolding edits
edits-AreRanked [] h a = a
edits-AreRanked (e ∷ es) h a = edits-AreRanked es (edit e h) (edit-AreRanked e h a)

-- Rake never lowers a tier: the tier that a call gives to a user whose tier is that of the user's
-- rake is not below it.
pub add_rake-tier :
    (id : ℕ) (amount : ℤ) (h : House) (u : User)
    → find_user id h ≡ some u
    → IsRanked u
    → Ensures
        (λ (r : (Tier × Bool) × House). tier_index u.tier ≤ tier_index r.0.0)
        (add_rake id amount h)
unfolding add_rake
add_rake-tier id amount h u found ranked =
    let P : (Tier × Bool) × House → Type 0 = λ r. tier_index u.tier ≤ tier_index r.0.0 in
    Ensures-bind _ P _ _ (Ensures-nothing (throw_if (leb_ℤ amount (pos 0)) _)) λ x _. rw found (
      Ensures-return _ _ (
        rw ranked
          (calculate_tier_mono u.lifetime_rake (u.lifetime_rake + pos_part amount) (omega arith))))
