-- ===== src/HandEvaluator/Scored.antt =====
-- A score is never below 0, so that the first hand replaces the initial result of the loop.
use cardgames.Prelude.{
  ℕ, ◌≡◌, refl, inl, inr, Bool, true, ◌&&◌, Option, List, map, length, arith, pos, ◌==◌, Bool-cases,
  Option-cases,
}
use Prim.Native.String.{String}
use cardgames.HandEvaluator.Ranks.{EvalCard, rank_value}
use cardgames.HandEvaluator.Five.{
  HandResult, at, Count, straight_flush, two_pair, classify, counts, evaluate5, sort_desc, unique,
  straight_high, is_flush,
}
use cardgames.HandEvaluator.Defs.{beats, no_best}

IsScored : HandResult → Type 0
IsScored r = (n : ℕ) × (r.score ≡ pos n)

scored :
    (rank score : ℕ) (name : String)
    → IsScored (record { rank = rank; score = pos score; name = name })
unfolding IsScored
scored rank score name = (score, refl)

straight_flush-IsScored : (high : ℕ) → IsScored (straight_flush high)
unfolding straight_flush
straight_flush-IsScored high = elim (Bool-cases (high == 14)) [
  | inl royal ↦ rw royal (scored _ _ _)
  | inr lower ↦ rw lower (scored _ _ _)
]

two_pair-IsScored : (a b c : Count) → IsScored (two_pair a b c)
unfolding two_pair
two_pair-IsScored a b c = scored _ _ _

classify-IsScored :
    (flush : Bool) (straight : Option ℕ) (values : List ℕ) (cs : List Count)
    → IsScored (classify flush straight values cs)
unfolding classify
classify-IsScored flush straight values cs = elim (Bool-cases ((at cs 0).count == 4)) [
  | inl four ↦ rw four (scored _ _ _)
  | inr e4 ↦ elim (Bool-cases ((at cs 0).count == 3 && (at cs 1).count == 2)) [
    | inl full ↦ rw (e4, full) (scored _ _ _)
    | inr ef ↦ elim (Bool-cases flush) [
      | inl suited ↦ rw (e4, ef, suited) (scored _ _ _)
      | inr es ↦ elim (Option-cases straight) [
        | inr (high, run) ↦ rw (e4, ef, es, run) (scored _ _ _)
        | inl er ↦ elim (Bool-cases ((at cs 0).count == 3)) [
          | inl three ↦ rw (e4, ef, es, er, three) (scored _ _ _)
          | inr e3 ↦ elim (Bool-cases ((at cs 0).count == 2 && (at cs 1).count == 2)) [
            | inl two ↦
                rw (e4, ef, es, er, e3, two) (two_pair-IsScored (at cs 0) (at cs 1) (at cs 2))
            | inr e2 ↦ elim (Bool-cases ((at cs 0).count == 2)) [
              | inl one ↦ rw (e4, ef, es, er, e3, e2, one) (scored _ _ _)
              | inr e1 ↦ rw (e4, ef, es, er, e3, e2, e1) (scored _ _ _)
            ]
          ]
        ]
      ]
    ]
  ]
]

evaluate5-IsScored : (cards : List EvalCard) → IsScored (evaluate5 cards)
unfolding evaluate5
evaluate5-IsScored cards =
    let values = sort_desc (map (λ c. rank_value c.rank) cards) in
    let other =
      classify-IsScored (is_flush cards) (straight_high (unique values)) values (counts values) in
    elim (Bool-cases (length cards == 5)) [
      | inr wrong ↦ rw wrong (scored _ _ _)
      | inl five ↦ elim (Bool-cases (is_flush cards)) [
        | inr mixed ↦ rw (five, mixed) (classify-IsScored _ _ _ _)
        | inl suited ↦ elim (Option-cases (straight_high (unique values))) [
          | inl er ↦ rw (five, suited, er) other
          | inr (high, run) ↦ rw (five, suited, run) (straight_flush-IsScored high)
        ]
      ]
    ]

first : (r : HandResult) → IsScored r → beats r no_best ≡ true
unfolding IsScored
first r (n, e) = rw e (ground arith)

pub evaluate5-first : (cards : List EvalCard) → beats (evaluate5 cards) no_best ≡ true
evaluate5-first cards = first (evaluate5 cards) (evaluate5-IsScored cards)
