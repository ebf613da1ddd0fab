-- ===== src/Showdown/Best.antt =====
-- The loops of `evaluateTexasHand` and `evaluateOmahaHand` find a best legal hand, whatever values
-- the evaluation library gives.
use cardgames.Prelude.{
  ℕ, ◌≤◌, ◌≡◌, refl, sym, ap, ◌⊎◌, inl, inr, List, [], ◌∷◌, ◌++◌, take, ltb, arith, All, Bool-cases,
  subst,
}
use mathlib.Core.Path.{ap₂}
use mathlib.Core.List.{foldl}
use cardgames.Showdown.Defs.{
  Evaluation, BestHand, keep_best, evaluate_texas_hand, evaluate_omaha_hand,
}
use cardgames.Showdown.Choose.{
  choose, combinations-choose, choose_sound, choose_complete, Selects, IsOmahaHand, All-weaken,
}

module _ {A : Type 0} (eval_hand : List A → Evaluation) where
  -- The answer names a hand that `Legal` allows, with that hand's own value and name; or the value
  -- is the initial 0.
  abbrev pub IsAttained : (List A → Type 0) → BestHand A → Type 0
  IsAttained Legal b =
      (b.value ≡ 0)
      ⊎ (Legal b.best_cards
          × ((eval_hand b.best_cards).value ≡ b.value)
          × ((eval_hand b.best_cards).hand_name ≡ b.name))

  keep_best-ge : (b : BestHand A) (c : List A) → b.value ≤ (keep_best eval_hand b c).value
  unfolding keep_best
  keep_best-ge b c = ground arith

  keep_best-ge_new :
      (b : BestHand A) (c : List A) → (eval_hand c).value ≤ (keep_best eval_hand b c).value
  unfolding keep_best
  keep_best-ge_new b c = ground arith

  keep_best-IsAttained :
      (Legal : List A → Type 0) (b : BestHand A) (c : List A)
      → Legal c
      → IsAttained Legal b
      → IsAttained Legal (keep_best eval_hand b c)
  unfolding keep_best
  keep_best-IsAttained Legal b c l a = elim (Bool-cases (ltb b.value (eval_hand c).value)) [
    | inl more ↦ rw more (inr (l, refl, refl))
    | inr less ↦ rw less a
  ]

  module _ {B : Type 0} (hand : B → List A) where
    abbrev pub scan : BestHand A → List B → BestHand A
    scan = foldl (λ b x. keep_best eval_hand b (hand x))

    pub scan-ge : (b : BestHand A) (xs : List B) → b.value ≤ (scan b xs).value
    scan-ge b [] = omega arith
    scan-ge b (x ∷ xs) =
        omega (arith, scan-ge (keep_best eval_hand b (hand x)) xs, keep_best-ge b (hand x))

    pub scan_upper :
        (b : BestHand A) (xs : List B)
        → All (λ x. (eval_hand (hand x)).value ≤ (scan b xs).value) xs
    scan_upper b [] = tt
    scan_upper b (x ∷ xs) = (
      omega (arith, scan-ge (keep_best eval_hand b (hand x)) xs, keep_best-ge_new b (hand x)),
      scan_upper (keep_best eval_hand b (hand x)) xs,
    )

    pub scan-IsAttained :
        (Legal : List A → Type 0) (b : BestHand A) (xs : List B)
        → All (λ x. Legal (hand x)) xs
        → IsAttained Legal b
        → IsAttained Legal (scan b xs)
    scan-IsAttained Legal b [] l a = a
    scan-IsAttained Legal b (x ∷ xs) l a =
        scan-IsAttained Legal (keep_best eval_hand b (hand x)) xs l.1
          (keep_best-IsAttained Legal b (hand x) l.0 a)

  abbrev no_hand : List A → BestHand A
  no_hand cards = record { value = 0; name = ""; best_cards = cards }

  texas_scan :
      (hole community : List A)
      → evaluate_texas_hand eval_hand hole community
        ≡ scan (λ c. c) (no_hand (take 5 (hole ++ community))) (choose 5 (hole ++ community))
  unfolding evaluate_texas_hand
  texas_scan hole community =
      ap (scan (λ c. c) (no_hand (take 5 (hole ++ community))))
        (combinations-choose (hole ++ community) 5)

  -- The Hold'em answer is best: no five of the hole and community cards evaluate higher, and the
  -- answer is the value and the name of five such cards, which it returns, unless its value is 0.
  pub evaluate_texas_hand-best :
      (hole community : List A)
      → ((c : List A)
          → Selects 5 (hole ++ community) c
          → (eval_hand c).value ≤ (evaluate_texas_hand eval_hand hole community).value)
        × IsAttained (Selects 5 (hole ++ community)) (evaluate_texas_hand eval_hand hole community)
  evaluate_texas_hand-best hole community = rw (texas_scan hole community) (
    λ c s.
        choose_complete (λ d. (eval_hand d).value ≤ (scan (λ d. d) start (choose 5 full)).value) s.0
          (subst
            (λ n.
              All (λ d. (eval_hand d).value ≤ (scan (λ d. d) start (choose 5 full)).value)
                (choose n full))
            (sym s.1) (scan_upper (λ d. d) start (choose 5 full))),
    scan-IsAttained (λ d. d) (Selects 5 full) start (choose 5 full) (choose_sound 5 full)
        (inl refl),
  )
    where
      full : List A
      full = hole ++ community

      start : BestHand A
      start = no_hand (take 5 full)

  module _ (boards : List (List A)) where
    abbrev pass : BestHand A → List (List A) → BestHand A
    pass = foldl (λ b h. scan (λ c. h ++ c) b boards)

    pass-ge : (b : BestHand A) (hs : List (List A)) → b.value ≤ (pass b hs).value
    pass-ge b [] = omega arith
    pass-ge b (h ∷ hs) =
        omega (arith, pass-ge (scan (λ c. h ++ c) b boards) hs, scan-ge (λ c. h ++ c) b boards)

    pass_upper :
        (b : BestHand A) (hs : List (List A))
        → All (λ h. All (λ c. (eval_hand (h ++ c)).value ≤ (pass b hs).value) boards) hs
    pass_upper b [] = tt
    pass_upper b (h ∷ hs) =
        let next = scan (λ c. h ++ c) b boards in
        (
          All-weaken (λ c. (eval_hand (h ++ c)).value ≤ next.value) _ boards
              (λ c le. omega (arith, pass-ge next hs)) (scan_upper (λ c. h ++ c) b boards),
          pass_upper next hs,
        )

    pass-IsAttained :
        (Legal : List A → Type 0) (b : BestHand A) (hs : List (List A))
        → All (λ h. All (λ c. Legal (h ++ c)) boards) hs
        → IsAttained Legal b
        → IsAttained Legal (pass b hs)
    pass-IsAttained Legal b [] l a = a
    pass-IsAttained Legal b (h ∷ hs) l a =
        pass-IsAttained Legal (scan (λ c. h ++ c) b boards) hs l.1
          (scan-IsAttained (λ c. h ++ c) Legal b boards l.0 a)

  omaha_pass :
      (hole community : List A)
      → evaluate_omaha_hand eval_hand hole community
        ≡ pass (choose 3 community) (no_hand []) (choose 2 hole)
  unfolding evaluate_omaha_hand
  omaha_pass hole community =
      ap₂ (λ bs hs. pass bs (no_hand []) hs) (combinations-choose community 3)
        (combinations-choose hole 2)

  -- The Omaha answer is best under the game's rule: no two hole cards with three community cards
  -- evaluate higher, and the answer is the value and the name of such a hand, which it returns,
  -- unless its value is 0.
  pub evaluate_omaha_hand-best :
      (hole community : List A)
      → ((c : List A)
          → IsOmahaHand hole community c
          → (eval_hand c).value ≤ (evaluate_omaha_hand eval_hand hole community).value)
        × IsAttained (IsOmahaHand hole community) (evaluate_omaha_hand eval_hand hole community)
  evaluate_omaha_hand-best hole community = rw (omaha_pass hole community) (
    λ c (h, b, sh, sb, e). rw e (
        choose_complete (λ d. (eval_hand (h ++ d)).value ≤ best) sb.0
          (subst (λ n. All (λ d. (eval_hand (h ++ d)).value ≤ best) (choose n community)) (sym sb.1)
            (choose_complete
              (λ g. All (λ d. (eval_hand (g ++ d)).value ≤ best) (choose 3 community)) sh.0
              (subst
                (λ n.
                  All (λ g. All (λ d. (eval_hand (g ++ d)).value ≤ best) (choose 3 community))
                    (choose n hole))
                (sym sh.1) (pass_upper (choose 3 community) (no_hand []) (choose 2 hole)))))),
    pass-IsAttained (choose 3 community) (IsOmahaHand hole community) (no_hand []) (choose 2 hole)
        (All-weaken (Selects 2 hole) _ (choose 2 hole)
          (λ h sh.
            All-weaken (Selects 3 community) _ (choose 3 community) (λ b sb. (h, b, sh, sb, refl))
              (choose_sound 3 community))
          (choose_sound 2 hole))
        (inl refl),
  )
    where
      best : ℕ
      best = (pass (choose 3 community) (no_hand []) (choose 2 hole)).value
