-- ===== src/HandEvaluator/Kickers.antt =====
-- The score of a flush and of a high card against the rule of the game.
use cardgames.Prelude.{ℕ, ◌≤◌, ◌<◌, ◌≡◌, ◌⊎◌, ◌↔◌, inl, inr, List, [], ◌∷◌, arith, All}
use cardgames.HandEvaluator.Five.{weigh}

-- The first card that differs decides.
abbrev pub IsLower : List ℕ → List ℕ → Type 0
IsLower (a ∷ xs) (b ∷ ys) = (a < b) ⊎ ((a ≡ b) × IsLower xs ys)
IsLower _ _ = ⊥

compare_cases : (a b : ℕ) → (a < b) ⊎ (a ≡ b) ⊎ (b < a)
compare_cases a b = ground arith

-- For five ranks of at most 14 each, one score is below another exactly if the first rank in which
-- the hands differ is lower.
weigh_iff :
    (a0 a1 a2 a3 a4 b0 b1 b2 b3 b4 : ℕ)
    → All (λ v. v ≤ 14) (a0 ∷ a1 ∷ a2 ∷ a3 ∷ a4 ∷ [])
    → All (λ v. v ≤ 14) (b0 ∷ b1 ∷ b2 ∷ b3 ∷ b4 ∷ [])
    → (weigh 0 0 (a0 ∷ a1 ∷ a2 ∷ a3 ∷ a4 ∷ []) < weigh 0 0 (b0 ∷ b1 ∷ b2 ∷ b3 ∷ b4 ∷ []))
      ↔ IsLower (a0 ∷ a1 ∷ a2 ∷ a3 ∷ a4 ∷ []) (b0 ∷ b1 ∷ b2 ∷ b3 ∷ b4 ∷ [])
weigh_iff a0 a1 a2 a3 a4 b0 b1 b2 b3 b4 la lb = (to, from)
  where
    to :
        weigh 0 0 (a0 ∷ a1 ∷ a2 ∷ a3 ∷ a4 ∷ []) < weigh 0 0 (b0 ∷ b1 ∷ b2 ∷ b3 ∷ b4 ∷ [])
        → IsLower (a0 ∷ a1 ∷ a2 ∷ a3 ∷ a4 ∷ []) (b0 ∷ b1 ∷ b2 ∷ b3 ∷ b4 ∷ [])
    to h = elim (compare_cases a0 b0) [
      | inl l ↦ inl l
      | inr (inr g) ↦ absurd (omega arith)
      | inr (inl e0) ↦ inr (
        e0,
        elim (compare_cases a1 b1) [
          | inl l ↦ inl l
          | inr (inr g) ↦ absurd (omega arith)
          | inr (inl e1) ↦ inr (
            e1,
            elim (compare_cases a2 b2) [
              | inl l ↦ inl l
              | inr (inr g) ↦ absurd (omega arith)
              | inr (inl e2) ↦ inr (
                e2,
                elim (compare_cases a3 b3) [
                  | inl l ↦ inl l
                  | inr (inr g) ↦ absurd (omega arith)
                  | inr (inl e3) ↦ inr (e3, inl (omega arith))
                ],
              )
            ],
          )
        ],
      )
    ]

    from :
        IsLower (a0 ∷ a1 ∷ a2 ∷ a3 ∷ a4 ∷ []) (b0 ∷ b1 ∷ b2 ∷ b3 ∷ b4 ∷ [])
        → weigh 0 0 (a0 ∷ a1 ∷ a2 ∷ a3 ∷ a4 ∷ []) < weigh 0 0 (b0 ∷ b1 ∷ b2 ∷ b3 ∷ b4 ∷ [])
    from (inl l) = omega arith
    from (inr (e0, inl l)) = omega arith
    from (inr (e0, inr (e1, inl l))) = omega arith
    from (inr (e0, inr (e1, inr (e2, inl l)))) = omega arith
    from (inr (e0, inr (e1, inr (e2, inr (e3, inl l))))) = omega arith
    from (inr (e0, inr (e1, inr (e2, inr (e3, inr (e4, l)))))) = absurd l
