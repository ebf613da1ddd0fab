-- ===== src/HandEvaluator/Best.antt =====
-- The best hand of the client.
use cardgames.Prelude.{
  ◌≤◌, ◌≡◌, refl, sym, ap, inl, inr, true, false, Option, List, [], ◌∷◌, ◌++◌, map, length, arith,
  ltb, if◌then◌else◌, Bool-cases, All, subst,
}
use Prim.Native.String.{String}
use mathlib.Core.List.{foldl, flat_map}
use cardgames.Showdown.Choose.{choose, choose_sound, choose_complete, Selects, IsOmahaHand}
use cardgames.HandEvaluator.Ranks.{EvalCard}
use cardgames.HandEvaluator.Five.{HandResult, evaluate5}
use cardgames.HandEvaluator.Enumerate.{
  combinations-choose_client, choose_some, some_pairs, omaha_sound, omaha_complete,
}
use cardgames.HandEvaluator.Scored.{evaluate5-first}
use cardgames.HandEvaluator.Defs.{
  beats, no_best, find_best, name_or_null, evaluate_hand, evaluate_holdem, evaluate_omaha, holdem,
  omaha,
}

beats_trans : (a b c : HandResult) → beats a b ≡ false → beats b c ≡ false → beats a c ≡ false
beats_trans a b c h k = ground arith

beats_refl : (a : HandResult) → beats a a ≡ false
beats_refl a = ground arith

-- The body of the loop, and the loop from a best result so far.
abbrev step : HandResult → List EvalCard → HandResult
step best combo = let result = evaluate5 combo in if beats result best then result else best

abbrev from : HandResult → List (List EvalCard) → HandResult
from = foldl step

step-keeps : (b : HandResult) (c : List EvalCard) → beats b (step b c) ≡ false
step-keeps b c = elim (Bool-cases (beats (evaluate5 c) b)) [
  | inl better ↦ rw better (less (evaluate5 c) b better)
  | inr worse ↦ rw worse (beats_refl b)
]
  where
    less : (a b : HandResult) → beats a b ≡ true → beats b a ≡ false
    less a b h = ground arith

step-covers : (b : HandResult) (c : List EvalCard) → beats (evaluate5 c) (step b c) ≡ false
step-covers b c = elim (Bool-cases (beats (evaluate5 c) b)) [
  | inl better ↦ rw better (beats_refl (evaluate5 c))
  | inr worse ↦ rw (worse, worse) refl
]

from-keeps : (b : HandResult) (cs : List (List EvalCard)) → beats b (from b cs) ≡ false
from-keeps b [] = beats_refl b
from-keeps b (c ∷ cs) =
    beats_trans b (step b c) (from (step b c) cs) (step-keeps b c) (from-keeps (step b c) cs)

from_upper :
    (b : HandResult) (cs : List (List EvalCard))
    → All (λ c. beats (evaluate5 c) (from b cs) ≡ false) cs
from_upper b [] = tt
from_upper b (c ∷ cs) = (
  beats_trans (evaluate5 c) (step b c) (from (step b c) cs) (step-covers b c)
      (from-keeps (step b c) cs),
  from_upper (step b c) cs,
)

-- The result is that of a legal hand.
abbrev IsLegal : (List EvalCard → Type 0) → HandResult → Type 0
IsLegal Legal r = (c : List EvalCard) × Legal c × (evaluate5 c ≡ r)

from-IsLegal :
    (Legal : List EvalCard → Type 0) (b : HandResult) (cs : List (List EvalCard))
    → All Legal cs
    → IsLegal Legal b
    → IsLegal Legal (from b cs)
from-IsLegal Legal b [] l i = i
from-IsLegal Legal b (c ∷ cs) l i =
    from-IsLegal Legal (step b c) cs l.1 (elim (Bool-cases (beats (evaluate5 c) b)) [
      | inl better ↦ rw better (c, l.0, refl)
      | inr worse ↦ rw worse i
    ])

-- Of legal combinations, the loop returns the result of one that no other beats.
find_best-IsLegal :
    (Legal : List EvalCard → Type 0) (c : List EvalCard) (cs : List (List EvalCard))
    → All Legal (c ∷ cs)
    → IsLegal Legal (find_best (c ∷ cs))
unfolding find_best
find_best-IsLegal Legal c cs l =
    rw (evaluate5-first c) (from-IsLegal Legal (evaluate5 c) cs l.1 (c, l.0, refl))

find_best_upper :
    (cs : List (List EvalCard)) → All (λ c. beats (evaluate5 c) (find_best cs) ≡ false) cs
unfolding find_best
find_best_upper cs = from_upper no_best cs

-- A legal hand that no legal hand beats, with this name.
abbrev pub IsNamed : (List EvalCard → Type 0) → Option String → Type 0
IsNamed Legal answer =
    (c : List EvalCard) × Legal c
    × (answer ≡ name_or_null (evaluate5 c).name)
    × ((d : List EvalCard) → Legal d → beats (evaluate5 d) (evaluate5 c) ≡ false)

find_best-IsNamed :
    (Legal : List EvalCard → Type 0) (cs : List (List EvalCard))
    → 1 ≤ length cs
    → All Legal cs
    → ((P : List EvalCard → Type 0) → All P cs → (d : List EvalCard) → Legal d → P d)
    → IsNamed Legal (name_or_null (find_best cs).name)
find_best-IsNamed Legal [] some_one l complete = absurd (omega arith)
find_best-IsNamed Legal (c ∷ cs) some_one l complete =
    let (d, legal, e) = find_best-IsLegal Legal c cs l in
    (
      d,
      legal,
      ap (λ r. name_or_null r.name) (sym e),
      λ x lx.
          subst (λ r. beats (evaluate5 x) r ≡ false) (sym e)
            (complete (λ y. beats (evaluate5 y) (find_best (c ∷ cs)) ≡ false)
              (find_best_upper (c ∷ cs)) x lx),
    )

-- The Hold'em answer: with two hole cards at least, a board, and five cards in all, it is the name
-- of five of the player's cards and the board's that no other five of them beat.
pub evaluate_hand-holdem :
    (c0 c1 : EvalCard) (cs : List EvalCard) (b : EvalCard) (bs : List EvalCard)
    → 5 ≤ length ((c0 ∷ c1 ∷ cs) ++ (b ∷ bs))
    → IsNamed
        (Selects 5 ((c0 ∷ c1 ∷ cs) ++ (b ∷ bs)))
        (evaluate_hand (c0 ∷ c1 ∷ cs) (b ∷ bs) holdem)
unfolding evaluate_hand evaluate_holdem
evaluate_hand-holdem c0 c1 cs b bs five =
    let cards = (c0 ∷ c1 ∷ cs) ++ (b ∷ bs) in
    rw (enough, combinations-choose_client cards 5)
      (find_best-IsNamed (Selects 5 cards) (choose 5 cards) (choose_some 5 cards five)
        (choose_sound 5 cards)
        (λ P all d s. choose_complete P s.0 (subst (λ n. All P (choose n cards)) (sym s.1) all)))
  where
    enough : ltb (length ((c0 ∷ c1 ∷ cs) ++ (b ∷ bs))) 5 ≡ false
    enough = ground arith

-- The Omaha answer: with two hole cards at least and three cards on the board, it is the name of
-- exactly two of the player's cards with exactly three of the board's that no other such hand beats.
evaluate_hand-omaha :
    (c0 c1 : EvalCard) (cs : List EvalCard) (b : EvalCard) (bs : List EvalCard)
    → 3 ≤ length (b ∷ bs)
    → IsNamed (IsOmahaHand (c0 ∷ c1 ∷ cs) (b ∷ bs)) (evaluate_hand (c0 ∷ c1 ∷ cs) (b ∷ bs) omaha)
unfolding evaluate_hand evaluate_omaha
evaluate_hand-omaha c0 c1 cs b bs three =
    let hole = c0 ∷ c1 ∷ cs in
    let board = b ∷ bs in
    rw (enough, combinations-choose_client board 3, combinations-choose_client hole 2)
      (find_best-IsNamed (IsOmahaHand hole board)
        (flat_map (λ h. map (λ x. h ++ x) (choose 3 board)) (choose 2 hole))
        (some_pairs (choose 2 hole) (choose 3 board) (choose_some 2 hole (omega arith))
          (choose_some 3 board three))
        (omaha_sound hole board) (omaha_complete hole board))
  where
    enough : ltb (length (b ∷ bs)) 3 ≡ false
    enough = ground arith
