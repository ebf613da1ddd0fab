-- ===== src/Deck/Shuffle.antt =====
-- The shuffle returns, and rearranges; the deck has 52 different cards.
use cardgames.Prelude.{
  ℕ, zero, suc, ◌+◌, ◌-◌, ◌≤◌, ◌<◌, ◌≡◌, ◌≢◌, refl, sym, ◌∙◌, ap, inl, inr, Bool, true, false, not,
  ◌&&◌, ◌||◌, some, List, [], ◌∷◌, length, get_elem?, set, length-set, get_elem?-some, arith,
  Option-cases, subst,
}
use Prim.Native.String.{String}
use mathlib.Core.Logic.Or
use mathlib.Core.Logic.{∥∥₁_elim}
use native.Mathlib.Nat.{ℕ_set}
use mathlib.Core.HLevel.{¬_prop}
use mathlib.Core.List.{flat_map, Mem, Perm, Permᴰ, Nodup, Pairwise, not-mem-nil, mem-cons}
use mathlib.Core.List.Perm
use text.Mathlib.Text.{◌==◌ as str_eq}
use text.Mathlib.TextEquality.{eq_iff}
use cardgames.Deck.Defs.{
  swap, shuffle_from, crypto_shuffle, create_deck, create_shuffled_deck, IsRandomInt,
}

module _ {ℓ} {A : Type ℓ} where
  some_eq : (u v : A) → some u ≡ some v → u ≡ v
  some_eq u v e = ground arith

  set-perm :
      (x b : A) (xs : List A) (j : ℕ) → get_elem? xs j ≡ some b → Perm (b ∷ set xs j x) (x ∷ xs)
  set-perm x b [] j h = cc
  set-perm x b (y ∷ xs) zero h =
      subst (λ z. Perm (z ∷ x ∷ xs) (x ∷ y ∷ xs)) (some_eq y b h) (Perm.swap x y xs)
  set-perm x b (y ∷ xs) (suc j) h =
      Perm.trans (Perm.swap y b (set xs j x))
        (Perm.trans (Perm.cons y (set-perm x b xs j h)) (Perm.swap x y xs))

  swap_perm :
      (xs : List A) (i j : ℕ) (a b : A)
      → get_elem? xs i ≡ some a
      → get_elem? xs j ≡ some b
      → Perm (set (set xs i b) j a) xs
  swap_perm [] i j a b h k = cc
  swap_perm (x ∷ xs) zero zero a b h k =
      subst (λ z. Perm (z ∷ xs) (x ∷ xs)) (some_eq x a h) (Perm.refl (x ∷ xs))
  swap_perm (x ∷ xs) zero (suc j) a b h k =
      subst (λ z. Perm (b ∷ set xs j z) (x ∷ xs)) (some_eq x a h) (set-perm x b xs j k)
  swap_perm (x ∷ xs) (suc i) zero a b h k =
      subst (λ z. Perm (a ∷ set xs i z) (x ∷ xs)) (some_eq x b k) (set-perm x a xs i h)
  swap_perm (x ∷ xs) (suc i) (suc j) a b h k = Perm.cons x (swap_perm xs i j a b h k)

  -- A swap of two places of the list returns a rearrangement.
  pub swap_total :
      (xs : List A) (i j : ℕ)
      → i < length xs
      → j < length xs
      → (ys : List A) × (swap xs i j ≡ some ys) × Perm ys xs
  unfolding swap
  swap_total xs i j hi hj =
      let (a, ea) = get_elem?-some xs i hi in
      let (b, eb) = get_elem?-some xs j hj in
      (set (set xs i b) j a, rw (ea, eb), swap_perm xs i j a b ea eb)

  pub length-swap :
      (xs : List A) (i j : ℕ) (ys : List A) → swap xs i j ≡ some ys → length ys ≡ length xs
  unfolding swap
  length-swap xs i j ys h = elim (Option-cases (get_elem? xs i)) [
    | inl e ↦ cc (rw e at h)
    | inr (a, ea) ↦ elim (Option-cases (get_elem? xs j)) [
      | inl e ↦ cc (rw (ea, e) at h)
      | inr (b, eb) ↦
          ap length (sym (list_eq (rw (ea, eb) at h)))
          ∙ length-set (set xs i b) j a
          ∙ length-set xs i b
    ]
  ]
    where
      list_eq : {u v : List A} → some u ≡ some v → u ≡ v
      list_eq e = ground arith

  module _ (random_int : ℕ → ℕ → ℕ → ℕ) (random : IsRandomInt random_int) where
    shuffle_from_total :
        (i : ℕ) (xs : List A)
        → i ≤ length xs - 1
        → (ys : List A) × (shuffle_from random_int i xs ≡ some ys) × Perm ys xs
    unfolding shuffle_from
    shuffle_from_total zero xs h = (xs, refl, Perm.refl xs)
    shuffle_from_total (suc i) xs h =
        let j = random_int (suc i) 0 (suc i + 1) in
        let bound : j < suc i + 1 = (random (suc i) 0 (suc i + 1) (omega arith)).1 in
        let (zs, ez, pz) = swap_total xs (suc i) j (omega arith) (omega arith) in
        let (ys, ey, py) =
          shuffle_from_total i zs (omega (arith, length-swap xs (suc i) j zs ez)) in
        (ys, rw ez ey, Perm.trans py pz)

    -- With random integers in the range that Node promises, the shuffle of any list returns a
    -- rearrangement of the list.
    pub crypto_shuffle-perm :
        (array : List A)
        → (ys : List A) × (crypto_shuffle random_int array ≡ some ys) × Perm ys array
    unfolding crypto_shuffle
    crypto_shuffle-perm array = shuffle_from_total (length array - 1) array (omega arith)

-- Is the card among these?
holds : String → List String → Bool
holds c [] = false
holds c (d ∷ ds) = str_eq c d || holds c ds

no_repeats : List String → Bool
no_repeats [] = true
no_repeats (c ∷ cs) = not (holds c cs) && no_repeats cs

holds_complete : (c d : String) (cs : List String) → holds d cs ≡ false → Mem c cs → d ≢ c
unfolding holds
holds_complete c d [] h m = absurd (not-mem-nil m)
holds_complete c d (e ∷ cs) h m =
    Or.elim ¬_prop (mem-cons.0 m) (λ same eq. ground (arith, eq_iff d e))
      (λ rest. holds_complete c d cs (ground arith) rest)

no_repeats_sound : (cs : List String) → no_repeats cs ≡ true → Nodup cs
unfolding no_repeats
no_repeats_sound [] h = Pairwise.nil
no_repeats_sound (c ∷ cs) h =
    Pairwise.cons (λ d m. holds_complete d c cs (ground arith) m)
      (no_repeats_sound cs (ground arith))

deck-Nodup : Nodup create_deck
unfolding create_deck no_repeats holds flat_map
deck-Nodup = no_repeats_sound _ refl

deck_size : length create_deck ≡ 52
unfolding create_deck flat_map
deck_size = refl

length-permᴰ {ℓ} : {A : Type ℓ} {xs ys : List A} → Permᴰ xs ys → length xs ≡ length ys
length-permᴰ Permᴰ.nil = refl
length-permᴰ (Permᴰ.cons e p) = ap suc (length-permᴰ p)
length-permᴰ (Permᴰ.swap e f) = refl
length-permᴰ (Permᴰ.trans p q) = length-permᴰ p ∙ length-permᴰ q

length-perm {ℓ} : {A : Type ℓ} (xs ys : List A) → Perm xs ys → length xs ≡ length ys
length-perm xs ys p = ∥∥₁_elim p (ℕ_set _ _) length-permᴰ

-- With random integers in the range that Node promises, `createShuffledDeck` returns 52 cards, all
-- different, which are the cards of the deck.
pub create_shuffled_deck-fair :
    (random_int : ℕ → ℕ → ℕ → ℕ)
    → IsRandomInt random_int
    → (cards : List String) × (create_shuffled_deck random_int ≡ some cards)
      × Perm cards create_deck
      × Nodup cards
      × (length cards ≡ 52)
unfolding create_shuffled_deck
create_shuffled_deck-fair random_int random =
    let (cards, e, p) = crypto_shuffle-perm random_int random create_deck in
    (cards, e, p, Perm.nodup (Perm.symm p) deck-Nodup, length-perm cards create_deck p ∙ deck_size)
