-- ===== src/HandEvaluator/Ranks.antt =====
-- Cards and the names of their ranks.
use cardgames.Prelude.{ℕ, ◌==◌, if◌then◌else◌}
use Prim.Native.String.{String, ◌++◌}
use text.Mathlib.Text.{◌==◌ as same_text}

pub record EvalCard : Type 0 where
  pub rank : String
  pub suit : String

-- `RANK_VALUES[rank] ?? 0`
unfoldable pub rank_value : String → ℕ
rank_value rank =
    if same_text rank "2"
    then 2
    else if same_text rank "3"
    then 3
    else if same_text rank "4"
    then 4
    else if same_text rank "5"
    then 5
    else if same_text rank "6"
    then 6
    else if same_text rank "7"
    then 7
    else if same_text rank "8"
    then 8
    else if same_text rank "9"
    then 9
    else if same_text rank "10"
    then 10
    else if same_text rank "T"
    then 10
    else if same_text rank "J"
    then 11
    else if same_text rank "Q"
    then 12
    else if same_text rank "K"
    then 13
    else if same_text rank "A"
    then 14
    else 0

-- `RANK_NAMES[rank] ?? rank`
unfoldable pub rank_name : String → String
rank_name rank =
    if same_text rank "2"
    then "Twos"
    else if same_text rank "3"
    then "Threes"
    else if same_text rank "4"
    then "Fours"
    else if same_text rank "5"
    then "Fives"
    else if same_text rank "6"
    then "Sixes"
    else if same_text rank "7"
    then "Sevens"
    else if same_text rank "8"
    then "Eights"
    else if same_text rank "9"
    then "Nines"
    else if same_text rank "10"
    then "Tens"
    else if same_text rank "T"
    then "Tens"
    else if same_text rank "J"
    then "Jacks"
    else if same_text rank "Q"
    then "Queens"
    else if same_text rank "K"
    then "Kings"
    else if same_text rank "A"
    then "Aces"
    else rank

-- `RANK_SINGULAR[rank] ?? rank`
unfoldable pub rank_singular : String → String
rank_singular rank =
    if same_text rank "2"
    then "Two"
    else if same_text rank "3"
    then "Three"
    else if same_text rank "4"
    then "Four"
    else if same_text rank "5"
    then "Five"
    else if same_text rank "6"
    then "Six"
    else if same_text rank "7"
    then "Seven"
    else if same_text rank "8"
    then "Eight"
    else if same_text rank "9"
    then "Nine"
    else if same_text rank "10"
    then "Ten"
    else if same_text rank "T"
    then "Ten"
    else if same_text rank "J"
    then "Jack"
    else if same_text rank "Q"
    then "Queen"
    else if same_text rank "K"
    then "King"
    else if same_text rank "A"
    then "Ace"
    else rank

-- `valueToRank`. The entries that are numbers come first, so that 10 is "10"; a value that no rank
-- has is 0.
unfoldable pub value_to_rank : ℕ → String
value_to_rank val =
    if val == 2
    then "2"
    else if val == 3
    then "3"
    else if val == 4
    then "4"
    else if val == 5
    then "5"
    else if val == 6
    then "6"
    else if val == 7
    then "7"
    else if val == 8
    then "8"
    else if val == 9
    then "9"
    else if val == 10
    then "10"
    else if val == 11
    then "J"
    else if val == 12
    then "Q"
    else if val == 13
    then "K"
    else if val == 14
    then "A"
    else "0"

abbrev pub pair_of : String → String
pair_of rank = "Pair of " ++ rank_name rank

abbrev pub high_card : String → String
high_card rank = "High Card, " ++ rank_singular rank
