-- ===== src/Showdown/Choose.antt =====
-- The combinations of the backtracking loop against the plain recursion on the first card.
use cardgames.Prelude.{
  ℕ, zero, suc, ◌+◌, ◌≡◌, refl, sym, ap, true, false, List, [], ◌∷◌, ◌++◌, map, length, All,
  length-append, length-map, ◌↔◌, subst, arith, append_assoc, ◌==◌, ==_iff,
}
use mathlib.Core.List.{Sublistᴰ, map-append}
use cardgames.Showdown.Defs.{extend, combinations}

-- The k-element selections of a list in its order: those with the first element, then the others.
unfoldable pub choose {ℓ} : {A : Type ℓ} → ℕ → List A → List (List A)
choose zero xs = [] ∷ []
choose (suc k) [] = []
choose (suc k) (x ∷ xs) = map (◌∷◌ x) (choose k xs) ++ choose (suc k) xs

module _ {ℓ} {A : Type ℓ} where
  prefix_map :
      (combo : List A) (x : A) (cs : List (List A))
      → map (◌++◌ combo) (map (◌∷◌ x) cs) ≡ map (◌++◌ (combo ++ x ∷ [])) cs
  prefix_map combo x [] = refl
  prefix_map combo x (c ∷ cs) = rw (prefix_map combo x cs, append_assoc combo (x ∷ []) c)

  extend-choose :
      (k m : ℕ) (rest combo : List A)
      → k ≡ length combo + suc m
      → extend k rest combo ≡ map (◌++◌ combo) (choose (suc m) rest)
  unfolding extend choose
  extend-choose k m [] combo h = refl
  extend-choose k zero (x ∷ rest) combo h =
      let full : (length (combo ++ x ∷ []) == k) ≡ true =
        (==_iff _ _).1 (omega (arith, length-append combo (x ∷ []))) in
      rw (full, extend-choose k zero rest combo h)
  extend-choose k (suc m) (x ∷ rest) combo h =
      let longer : length (combo ++ x ∷ []) ≡ length combo + 1 = length-append combo (x ∷ []) in
      let short : (length (combo ++ x ∷ []) == k) ≡ false = ground (arith, longer) in
      rw (
        short,
        extend-choose k m rest (combo ++ x ∷ []) (omega (arith, longer)),
        extend-choose k (suc m) rest combo h,
        map-append,
        prefix_map combo x (choose (suc m) rest),
      )

  -- The backtracking loop lists the selections of exactly k cards, each once for each choice of
  -- places and in the order of the places, for every list of cards and every k.
  pub combinations-choose : (xs : List A) (k : ℕ) → combinations xs k ≡ choose k xs
  unfolding combinations choose
  combinations-choose xs zero = refl
  combinations-choose xs (suc k) =
      let rounds = extend-choose (suc k) k xs [] (omega arith) in
      rw (none_yet k, rounds) (map_id (choose (suc k) xs))
    where
      none_yet : (j : ℕ) → (0 == suc j) ≡ false
      none_yet j = ground arith

      map_id : (cs : List (List A)) → map (◌++◌ []) cs ≡ cs
      map_id [] = refl
      map_id (c ∷ cs) = ap (◌∷◌ c) (map_id cs)

-- n over k, by Pascal's rule.
pub binomial : ℕ → ℕ → ℕ
binomial n zero = 1
binomial zero (suc k) = 0
binomial (suc n) (suc k) = binomial n k + binomial n (suc k)

module _ {ℓ} {A : Type ℓ} where
  length-choose : (k : ℕ) (xs : List A) → length (choose k xs) ≡ binomial (length xs) k
  unfolding choose binomial
  length-choose zero [] = refl
  length-choose zero (x ∷ xs) = refl
  length-choose (suc k) [] = refl
  length-choose (suc k) (x ∷ xs) = omega (
    arith,
    length-append (map (◌∷◌ x) (choose k xs)) (choose (suc k) xs),
    length-map (choose k xs) (◌∷◌ x),
    length-choose k xs,
    length-choose (suc k) xs,
  )

  -- There are n over k combinations of k out of n cards.
  pub length-combinations :
      (xs : List A) (k : ℕ) → length (combinations xs k) ≡ binomial (length xs) k
  length-combinations xs k = rw combinations-choose (length-choose k xs)

  pub All-append {κ} : (P : A → Type κ) (cs ds : List A) → All P cs → All P ds → All P (cs ++ ds)
  All-append P [] ds a b = b
  All-append P (c ∷ cs) ds a b = (a.0, All-append P cs ds a.1 b)

  pub All-append_inv {κ} :
      (P : A → Type κ) (cs ds : List A) → All P (cs ++ ds) → All P cs × All P ds
  All-append_inv P [] ds a = (tt, a)
  All-append_inv P (c ∷ cs) ds a = let (l, r) = All-append_inv P cs ds a.1 in ((a.0, l), r)

  pub All-map {κ μ} :
      {B : Type μ} (P : B → Type κ) (f : A → B) (xs : List A)
      → All P (map f xs) ↔ All (λ x. P (f x)) xs
  All-map P f [] = (λ a. a, λ a. a)
  All-map P f (x ∷ xs) =
      let (to, from) = All-map P f xs in (λ a. (a.0, to a.1), λ a. (a.0, from a.1))

  pub All-weaken {κ μ} :
      (P : A → Type κ) (Q : A → Type μ) (xs : List A) → ((x : A) → P x → Q x) → All P xs → All Q xs
  All-weaken P Q [] f a = tt
  All-weaken P Q (x ∷ xs) f a = (f x a.0, All-weaken P Q xs f a.1)

-- c is a selection of k cards of xs.
abbrev pub Selects {ℓ} : {A : Type ℓ} → ℕ → List A → List A → Type ℓ
Selects k xs c = Sublistᴰ c xs × (length c ≡ k)

-- Exactly two hole cards, then exactly three community cards.
abbrev pub IsOmahaHand {ℓ} : {A : Type ℓ} → List A → List A → List A → Type ℓ
IsOmahaHand {A} hole community c =
    (h : List A) × (b : List A) × Selects 2 hole h × Selects 3 community b × (c ≡ h ++ b)

module _ {ℓ} {A : Type ℓ} where
  pub choose_sound : (k : ℕ) (xs : List A) → All (Selects k xs) (choose k xs)
  unfolding choose
  choose_sound zero [] = ((Sublistᴰ.slnil, refl), tt)
  choose_sound zero (x ∷ xs) = ((Sublistᴰ.cons (choose_sound zero xs).0.0, refl), tt)
  choose_sound (suc k) [] = tt
  choose_sound (suc k) (x ∷ xs) =
      All-append (Selects (suc k) (x ∷ xs)) (map (◌∷◌ x) (choose k xs)) (choose (suc k) xs)
        ((All-map (Selects (suc k) (x ∷ xs)) (◌∷◌ x) (choose k xs)).1 (
          All-weaken (Selects k xs) _ (choose k xs)
            (λ c s. (Sublistᴰ.cons-cons refl s.0, ap suc s.1)) (choose_sound k xs)))
        (All-weaken (Selects (suc k) xs) _ (choose (suc k) xs) (λ c s. (Sublistᴰ.cons s.0, s.1))
          (choose_sound (suc k) xs))

  -- What holds of every listed selection holds of every selection.
  pub choose_complete {κ} :
      (P : List A → Type κ) {c xs : List A} → Sublistᴰ c xs → All P (choose (length c) xs) → P c
  unfolding choose
  choose_complete P Sublistᴰ.slnil a = a.0
  choose_complete P (Sublistᴰ.cons {l₁ = []} d) a = a.0
  choose_complete P (Sublistᴰ.cons {a = x} {l₁ = y ∷ c} {l₂ = xs} d) a =
      choose_complete P d
        (All-append_inv P (map (◌∷◌ x) (choose (length c) xs)) (choose (suc (length c)) xs) a).1
  choose_complete P (Sublistᴰ.cons-cons {a = y} {b = x} {l₁ = c} {l₂ = xs} e d) a =
      subst (λ z. P (z ∷ c)) (sym e)
        (choose_complete (λ r. P (x ∷ r)) d
          ((All-map P (◌∷◌ x) (choose (length c) xs)).0
            (All-append_inv P (map (◌∷◌ x) (choose (length c) xs)) (choose (suc (length c)) xs)
              a).0))
