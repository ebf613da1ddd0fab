-- ===== src/HandEvaluator/Five.antt =====
-- `evaluate5`.
use cardgames.Prelude.{
  ℕ, zero, suc, ◌+◌, ◌-◌, ◌*◌, max, Bool, true, not, ◌&&◌, ◌||◌, Option, none, some, List, [], ◌∷◌,
  map, length, ℤ, pos, ltb, ◌==◌, if◌then◌else◌,
}
use Prim.Native.Nat.{◌^◌, min}
use Prim.Native.String.{String, ◌++◌}
use mathlib.Core.List.{foldl}
use text.Mathlib.Text.{◌==◌ as same_text}
use cardgames.HandEvaluator.Ranks.{EvalCard, rank_value, rank_name, rank_singular, value_to_rank}

-- `HAND_RANKS` are the numbers from 9 for a royal flush down to 0 for a high card.
pub record HandResult : Type 0 where
  pub rank : ℕ
  pub score : ℤ
  pub name : String

-- A rank and the number of its cards.
pub record Count : Type 0 where
  pub val : ℕ
  pub count : ℕ

abbrev pub insert_desc : ℕ → List ℕ → List ℕ
insert_desc v [] = v ∷ []
insert_desc v (x ∷ xs) = let rest = insert_desc v xs in if ltb v x then x ∷ rest else v ∷ x ∷ xs

-- `sort((a, b) => b - a)`
abbrev pub sort_desc : List ℕ → List ℕ
sort_desc [] = []
sort_desc (v ∷ vs) = insert_desc v (sort_desc vs)

-- `new Set(values)` of values in descending order.
abbrev pub unique : List ℕ → List ℕ
unique [] = []
unique (v ∷ []) = v ∷ []
unique (v ∷ w ∷ vs) = let rest = unique (w ∷ vs) in if v == w then rest else v ∷ rest

-- `suits.every(s => s === suits[0])`
abbrev pub all_of : String → List EvalCard → Bool
all_of suit [] = true
all_of suit (c ∷ cs) = same_text c.suit suit && all_of suit cs

abbrev pub is_flush : List EvalCard → Bool
is_flush [] = true
is_flush (c ∷ cs) = all_of c.suit (c ∷ cs)

-- `isStraight`, with `straightHigh`. The wheel is tested last.
abbrev pub straight_high : List ℕ → Option ℕ
straight_high (a ∷ b ∷ c ∷ d ∷ e ∷ []) =
    if a == 14 && b == 5 && c == 4 && d == 3 && e == 2
    then some 5
    else if a == e + 4
    then some a
    else none
straight_high _ = none

-- `freq[v] = (freq[v] ?? 0) + 1`
abbrev pub tally : ℕ → List Count → List Count
tally v [] = record { val = v; count = 1 } ∷ []
tally v (c ∷ cs) =
    let rest = tally v cs in if c.val == v then record c { count = suc c.count } ∷ cs else c ∷ rest

-- `b.count - a.count || b.val - a.val`
abbrev pub precedes : Count → Count → Bool
precedes a b = ltb b.count a.count || (a.count == b.count && ltb b.val a.val)

abbrev pub insert_count : Count → List Count → List Count
insert_count c [] = c ∷ []
insert_count c (d ∷ ds) =
    let rest = insert_count c ds in if precedes d c then d ∷ rest else c ∷ d ∷ ds

abbrev pub sort_counts : List Count → List Count
sort_counts [] = []
sort_counts (c ∷ cs) = insert_count c (sort_counts cs)

unfoldable pub counts : List ℕ → List Count
counts values = sort_counts (foldl (λ f v. tally v f) [] values)

-- `counts[i]`, read only where it is there.
abbrev pub at : List Count → ℕ → Count
at [] i = record { val = 0; count = 0 }
at (c ∷ cs) zero = c
at (c ∷ cs) (suc i) = at cs i

-- `values.reduce((acc, v, i) => acc + v * Math.pow(15, 4 - i), 0)`
abbrev pub weigh : ℕ → ℕ → List ℕ → ℕ
weigh acc i [] = acc
weigh acc i (v ∷ vs) = weigh (acc + v * 15 ^ (4 - i)) (suc i) vs

abbrev pub head_or_zero : List ℕ → ℕ
head_or_zero [] = 0
head_or_zero (v ∷ vs) = v

abbrev result : ℕ → ℕ → String → HandResult
result rank score name = record { rank = rank; score = pos score; name = name }

abbrev singular_of : ℕ → String
singular_of v = rank_singular (value_to_rank v)

abbrev name_of : ℕ → String
name_of v = rank_name (value_to_rank v)

-- A flush that is a straight to this card.
unfoldable pub straight_flush : ℕ → HandResult
straight_flush high =
    if high == 14
    then result 9 14 "Royal Flush"
    else result 8 high ("Straight Flush, " ++ singular_of high ++ " High")

-- Two pairs, the higher first.
unfoldable pub two_pair : Count → Count → Count → HandResult
two_pair a b c =
    let high = max a.val b.val in
    let low = min a.val b.val in
    result 2 (high * 10000 + low * 100 + c.val)
      ("Two Pair, " ++ name_of high ++ " and " ++ name_of low)

-- The classification, after the test for a straight flush.
unfoldable pub classify : Bool → Option ℕ → List ℕ → List Count → HandResult
unfolding two_pair
classify flush straight values cs =
    let a = at cs 0 in
    let b = at cs 1 in
    let c = at cs 2 in
    let d = at cs 3 in
    let rest =
      if a.count == 3
      then result 3 (a.val * 10000 + b.val * 100 + c.val) ("Three " ++ name_of a.val)
      else if a.count == 2 && b.count == 2
      then two_pair a b c
      else if a.count == 2
      then result 1 (a.val * 1000000 + b.val * 10000 + c.val * 100 + d.val)
          ("Pair of " ++ name_of a.val)
      else result 0 (weigh 0 0 values) ("High Card, " ++ singular_of (head_or_zero values)) in
    if a.count == 4
    then result 7 (a.val * 100 + b.val) ("Four " ++ name_of a.val)
    else if a.count == 3 && b.count == 2
    then result 6 (a.val * 100 + b.val)
        ("Full House, " ++ name_of a.val ++ " over " ++ name_of b.val)
    else if flush
    then result 5 (weigh 0 0 values) ("Flush, " ++ singular_of (head_or_zero values) ++ " High")
    else elim straight [
      | some high ↦ result 4 high ("Straight, " ++ singular_of high ++ " High")
      | none ↦ rest
    ]

unfoldable pub evaluate5 : List EvalCard → HandResult
evaluate5 cards =
    let values = sort_desc (map (λ c. rank_value c.rank) cards) in
    let flush = is_flush cards in
    let straight = straight_high (unique values) in
    let other = classify flush straight values (counts values) in
    if not (length cards == 5)
    then result 0 0 "Invalid"
    else if flush
    then elim straight [ some high ↦ straight_flush high | none ↦ other ]
    else other
