-- ===== src/Deck/Tests.antt =====
-- The theorems on the shuffle with a generator that answers its lower bound.
use cardgames.Prelude.{ℕ, ◌≡◌, some, List, length, arith}
use Prim.Native.String.{String}
use mathlib.Core.List.{Perm, Nodup}
use cardgames.Deck.Defs.{create_deck, create_shuffled_deck, IsRandomInt}
use cardgames.Deck.Shuffle.{create_shuffled_deck-fair}

abbrev lowest : ℕ → ℕ → ℕ → ℕ
lowest n lo hi = lo

lowest-IsRandomInt : IsRandomInt lowest
lowest-IsRandomInt n lo hi h = (omega arith, h)

create_shuffled_deck_example :
    (cards : List String) × (create_shuffled_deck lowest ≡ some cards)
    × Perm cards create_deck
    × Nodup cards
    × (length cards ≡ 52)
create_shuffled_deck_example = create_shuffled_deck-fair lowest lowest-IsRandomInt
