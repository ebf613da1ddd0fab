-- ===== src/Deck/Defs.antt =====
-- `cryptoShuffle`, `createDeck` and `createShuffledDeck`.
use cardgames.Prelude.{
  ℕ, zero, suc, ◌+◌, ◌-◌, ◌≤◌, ◌<◌, Option, none, some, List, [], ◌∷◌, map, length, get_elem?, set,
}
use mathlib.Core.List.{flat_map}
use Prim.Native.String.{String, ◌++◌}

infixl 5 ◌>>=◌
abbrev ◌>>=◌ {ℓ κ} : {A : Type ℓ} {B : Type κ} → Option A → (A → Option B) → Option B
none >>= f = none
some a >>= f = f a

-- `[result[i], result[j]] = [result[j], result[i]]`; a read out of bounds is `none`.
unfoldable pub swap {ℓ} : {A : Type ℓ} → List A → ℕ → ℕ → Option (List A)
swap result i j = do a ← get_elem? result i; b ← get_elem? result j; some (set (set result i b) j a)

-- The rounds i, i - 1, ..., 1 of the loop.
unfoldable pub shuffle_from {ℓ} : {A : Type ℓ} → (ℕ → ℕ → ℕ → ℕ) → ℕ → List A → Option (List A)
unfolding swap
shuffle_from random_int zero result = some result
shuffle_from random_int (suc i) result = do
  swapped ← swap result (suc i) (random_int (suc i) 0 (suc i + 1))
  shuffle_from random_int i swapped

unfoldable pub crypto_shuffle {ℓ} : {A : Type ℓ} → (ℕ → ℕ → ℕ → ℕ) → List A → Option (List A)
unfolding shuffle_from
crypto_shuffle random_int array = shuffle_from random_int (length array - 1) array

abbrev pub suits : List String
suits = "s" ∷ "h" ∷ "d" ∷ "c" ∷ []

abbrev pub ranks : List String
ranks = "2" ∷ "3" ∷ "4" ∷ "5" ∷ "6" ∷ "7" ∷ "8" ∷ "9" ∷ "T" ∷ "J" ∷ "Q" ∷ "K" ∷ "A" ∷ []

-- A card is its rank followed by its suit.
unfoldable pub create_deck : List String
create_deck = flat_map (λ suit. map (λ rank. rank ++ suit) ranks) suits

unfoldable pub create_shuffled_deck : (ℕ → ℕ → ℕ → ℕ) → Option (List String)
unfolding crypto_shuffle create_deck
create_shuffled_deck random_int = crypto_shuffle random_int create_deck

-- `randomInt(min, max)` lies in [min, max) where that range is not empty.
abbrev pub IsRandomInt : (ℕ → ℕ → ℕ → ℕ) → Type 0
IsRandomInt random_int =
    (n lo hi : ℕ) → lo < hi → (lo ≤ random_int n lo hi) × (random_int n lo hi < hi)
