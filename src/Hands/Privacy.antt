-- ===== src/Hands/Privacy.antt =====
-- The cards of the other players.
use cardgames.Prelude.{
  ℕ, zero, suc, ◌≡◌, refl, ap, Bool, Option, List, [], ◌∷◌, map, ltb, ◌==◌, if◌then◌else◌, inl, inr,
  Bool-cases, Option-cases,
}
use cardgames.Store.Table.{find}
use cardgames.Users.Defs.{House}
use cardgames.Archive.Defs.{HandHistory, HandPlayerResult, Archive, find_hand}
use cardgames.Hands.Defs.{
  filter, TableRow, results_of, hero_result, winner_entry, winners_of, history_entry,
  get_hand_history, my_entry, get_my_hand_history,
}

-- The results with the cards of the user alone.
abbrev pub hide : ℕ → HandPlayerResult → HandPlayerResult
hide user r = if r.user_id == user then r else record r { cards = [] }

abbrev pub hide_cards : ℕ → Archive → Archive
hide_cards user a = record a { results = map (hide user) a.results }

module _ (user : ℕ) where
  -- What does not read the cards is the same of a hidden result.
  hidden_same :
      {B : Type 0} (f : HandPlayerResult → B) (r : HandPlayerResult)
      → f (record r { cards = [] }) ≡ f r
      → f (hide user r) ≡ f r
  hidden_same f r same = elim (Bool-cases (r.user_id == user)) [
    | inl own ↦ rw own refl
    | inr other ↦ rw other same
  ]

  -- A test that does not read the cards picks the same results.
  hidden-filter :
      (p : HandPlayerResult → Bool) (rs : List HandPlayerResult)
      → ((r : HandPlayerResult) → p (hide user r) ≡ p r)
      → filter p (map (hide user) rs) ≡ map (hide user) (filter p rs)
  unfolding filter
  hidden-filter p [] same = refl
  hidden-filter p (r ∷ rs) same = elim (Bool-cases (p r)) [
    | inl in_it ↦
        rw (same r, in_it)
          (ap (λ (l : List HandPlayerResult). hide user r ∷ l) (hidden-filter p rs same))
    | inr out ↦ rw (same r, out) (hidden-filter p rs same)
  ]

  hidden-results_of :
      (hand : ℕ) (rs : List HandPlayerResult)
      → results_of hand (map (hide user) rs) ≡ map (hide user) (results_of hand rs)
  hidden-results_of hand rs =
      hidden-filter (λ r. r.hand_id == hand) rs (λ r. hidden_same (λ q. q.hand_id == hand) r refl)

  hidden-winners_of :
      (h : House) (rs : List HandPlayerResult) → winners_of h (map (hide user) rs) ≡ winners_of h rs
  unfolding filter
  hidden-winners_of h [] = refl
  hidden-winners_of h (r ∷ rs) =
      let amount = hidden_same (λ q. q.win_amount) r refl in
      elim (Bool-cases (ltb 0 r.win_amount)) [
        | inl won ↦
            rw (amount, won, hidden_same (winner_entry h) r refl, hidden-winners_of h rs) refl
        | inr lost ↦ rw (amount, lost) (hidden-winners_of h rs)
      ]

  hidden-hero_result :
      (rs : List HandPlayerResult) → hero_result user (map (hide user) rs) ≡ hero_result user rs
  unfolding find
  hidden-hero_result [] = refl
  hidden-hero_result (r ∷ rs) = elim (Bool-cases (r.user_id == user)) [
    | inl own ↦ rw (own, own) refl
    | inr other ↦ rw (other, other) (hidden-hero_result rs)
  ]

  own-hidden :
      (rs : List HandPlayerResult)
      → filter (λ r. r.user_id == user) (map (hide user) rs) ≡ filter (λ r. r.user_id == user) rs
  unfolding filter
  own-hidden [] = refl
  own-hidden (r ∷ rs) = elim (Bool-cases (r.user_id == user)) [
    | inl own ↦ rw (own, own) (ap (λ (l : List HandPlayerResult). r ∷ l) (own-hidden rs))
    | inr other ↦ rw (other, other) (own-hidden rs)
  ]

  entry-hidden :
      (a : Archive) (h : HandHistory)
      → history_entry user (hide_cards user a) h ≡ history_entry user a h
  entry-hidden a h =
      rw
        (
          hidden-results_of h.id a.results,
          hidden-hero_result (results_of h.id a.results),
          hidden-winners_of a.house (results_of h.id a.results),
        )
        refl

  hand-hidden : (id : ℕ) (a : Archive) → find_hand id (hide_cards user a) ≡ find_hand id a
  unfolding find_hand
  hand-hidden id a = refl

  my_entry-hidden :
      (tables : ℕ → Option TableRow) (a : Archive) (r : HandPlayerResult)
      → my_entry tables (hide_cards user a) r ≡ my_entry tables a r
  my_entry-hidden tables a r = elim (Option-cases (find_hand r.hand_id a)) [
    | inl e ↦ rw (my_entry, hand-hidden r.hand_id a, e) refl
    | inr (h, e) ↦
        rw
          (
            my_entry,
            hand-hidden r.hand_id a,
            e,
            hidden-results_of h.id a.results,
            hidden-winners_of a.house (results_of h.id a.results),
          )
          refl
  ]

  map_same :
      {A B : Type 0} (f g : A → B) (same : (x : A) → f x ≡ g x) (xs : List A) → map f xs ≡ map g xs
  map_same f g same [] = refl
  map_same f g same (x ∷ xs) = rw (same x, map_same f g same xs) refl

  -- The lists of hands show no cards of other players: the hands of a table and every page of a
  -- player's own hands are the same if the cards of all other players are taken out of the archive,
  -- however the database orders the rows.
  pub lists-hide_cards :
      (hands_newest : List HandHistory → List HandHistory)
      (results_newest : List HandHistory → List HandPlayerResult → List HandPlayerResult)
      (tables : ℕ → Option TableRow) (table page limit : ℕ) (a : Archive)
      → (get_hand_history hands_newest table user (hide_cards user a)
          ≡ get_hand_history hands_newest table user a)
        × (get_my_hand_history results_newest tables user page limit (hide_cards user a)
            ≡ get_my_hand_history results_newest tables user page limit a)
  unfolding get_hand_history get_my_hand_history
  lists-hide_cards hands_newest results_newest tables table page limit a =
      (map_same _ _ (entry-hidden a) _, mine page)
    where
      mine :
          (page : ℕ)
          → get_my_hand_history results_newest tables user page limit (hide_cards user a)
            ≡ get_my_hand_history results_newest tables user page limit a
      mine zero = refl
      mine (suc p) = rw (own-hidden a.results, map_same _ _ (my_entry-hidden tables a) _) refl
