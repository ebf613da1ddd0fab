-- ===== src/Showdown/Scores.antt =====
-- `evaluateHandScores`: who is scored, and by which game's rule.
use cardgames.Prelude.{
  ◌≤◌, ◌≡◌, refl, sym, subst, inl, inr, Bool, true, ◌||◌, List, [], ◌∷◌, ◌++◌, length, ltb,
  Bool-cases, if◌then◌else◌,
}
use mathlib.Core.List.{Memᴰ}
use text.Mathlib.Text.{◌==◌ as str_eq}
use cardgames.Showdown.Defs.{Evaluation, PlayerHand, HandScore, score_of, evaluate_hand_scores}
use cardgames.Showdown.Choose.{Selects, IsOmahaHand}
use cardgames.Showdown.Best.{evaluate_texas_hand-best, evaluate_omaha_hand-best}

-- The status of a player who is still in the hand.
abbrev pub is_contender : {A : Type 0} → PlayerHand A → Bool
is_contender p = str_eq p.status "active" || str_eq p.status "all-in"

-- The hands that a player may show: by the Omaha rule with more than two hole cards, else any five.
abbrev pub IsLegal : {A : Type 0} → PlayerHand A → List A → List A → Type 0
IsLegal p community c =
    if ltb 2 (length p.cards)
    then IsOmahaHand p.cards community c
    else Selects 5 (p.cards ++ community) c

module _ {A : Type 0} (eval_hand : List A → Evaluation) (community : List A) where
  -- The score of a player is not beaten by any hand that the player may show.
  score_of_upper :
      (p : PlayerHand A) (c : List A)
      → IsLegal p community c
      → (eval_hand c).value ≤ (score_of eval_hand community p).score
  unfolding score_of
  score_of_upper p c l = elim (Bool-cases (ltb 2 (length p.cards))) [
    | inl omaha ↦
        rw omaha ((evaluate_omaha_hand-best eval_hand p.cards community).0 c (rw omaha at l))
    | inr texas ↦
        rw texas ((evaluate_texas_hand-best eval_hand p.cards community).0 c (rw texas at l))
  ]

  -- A score stands for a contender: its seat, and a score that no legal hand of theirs beats.
  abbrev pub Stands : List (PlayerHand A) → HandScore A → Type 0
  Stands players r =
      (p : PlayerHand A) × Memᴰ p players
      × (is_contender p ≡ true)
      × (r.seat ≡ p.seat)
      × ((c : List A) → IsLegal p community c → (eval_hand c).value ≤ r.score)

  Stands-later :
      (q : PlayerHand A) (players : List (PlayerHand A)) (r : HandScore A)
      → Stands players r
      → Stands (q ∷ players) r
  Stands-later q players r (p, m, k, e, u) = (p, Memᴰ.tail m, k, e, u)

  Stands-here :
      (p : PlayerHand A) (players : List (PlayerHand A))
      → is_contender p ≡ true
      → Stands (p ∷ players) (score_of eval_hand community p)
  unfolding score_of
  Stands-here p players k = (p, Memᴰ.head refl, k, refl, score_of_upper p)

  Stands-cons :
      (p : PlayerHand A) (players : List (PlayerHand A)) (rs : List (HandScore A)) (r : HandScore A)
      → is_contender p ≡ true
      → (Memᴰ r rs → Stands players r)
      → Memᴰ r (score_of eval_hand community p ∷ rs)
      → Stands (p ∷ players) r
  Stands-cons p players rs r k later (Memᴰ.head e) =
      subst (Stands (p ∷ players)) (sym e) (Stands-here p players k)
  Stands-cons p players rs r k later (Memᴰ.tail m) = Stands-later p players r (later m)

  -- Only players who are active or all-in are scored, and no legal hand of the player in that seat
  -- has a higher value than the score.
  evaluate_hand_scores_sound :
      (players : List (PlayerHand A)) (r : HandScore A)
      → Memᴰ r (evaluate_hand_scores eval_hand players community)
      → Stands players r
  unfolding evaluate_hand_scores
  evaluate_hand_scores_sound [] r m = elim m [ ]
  evaluate_hand_scores_sound (p ∷ players) r m = elim (Bool-cases (is_contender p)) [
    | inl k ↦ Stands-cons p players _ r k (evaluate_hand_scores_sound players r) (rw k at m)
    | inr out ↦ Stands-later p players r (evaluate_hand_scores_sound players r (rw out at m))
  ]

  -- Every player who is active or all-in is scored.
  evaluate_hand_scores_complete :
      (players : List (PlayerHand A)) (p : PlayerHand A)
      → Memᴰ p players
      → is_contender p ≡ true
      → Memᴰ (score_of eval_hand community p) (evaluate_hand_scores eval_hand players community)
  unfolding evaluate_hand_scores
  evaluate_hand_scores_complete [] p m k = elim m [ ]
  evaluate_hand_scores_complete (q ∷ players) p (Memᴰ.head e) k =
      subst
        (λ z.
          Memᴰ (score_of eval_hand community p)
            (evaluate_hand_scores eval_hand (z ∷ players) community))
        e (rw k (Memᴰ.head refl))
  evaluate_hand_scores_complete (q ∷ players) p (Memᴰ.tail m) k =
      elim (Bool-cases (is_contender q)) [
        | inl also ↦ rw also (Memᴰ.tail (evaluate_hand_scores_complete players p m k))
        | inr out ↦ rw out (evaluate_hand_scores_complete players p m k)
      ]
