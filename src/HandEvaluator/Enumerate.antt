-- ===== src/HandEvaluator/Enumerate.antt =====
-- The combinations that the client tries.
use cardgames.Prelude.{
  ℕ, zero, suc, ◌≤◌, ◌<◌, ◌≡◌, refl, sym, ◌∙◌, inl, inr, List, [], ◌∷◌, ◌++◌, map, length, arith,
  ltb, Bool-cases, All, subst, length-append, length-map,
}
use mathlib.Core.List.{flat_map}
use cardgames.Showdown.Choose.{
  choose, combinations-choose, choose_sound, choose_complete, Selects, IsOmahaHand, All-weaken,
  All-append, All-append_inv, All-map,
}
use cardgames.Showdown.Defs as Server
use cardgames.HandEvaluator.Ranks.{EvalCard}
use cardgames.HandEvaluator.Defs.{combinations}

choose_short {ℓ} : {A : Type ℓ} (k : ℕ) (xs : List A) → length xs < k → choose k xs ≡ []
unfolding choose
choose_short zero xs h = absurd (omega arith)
choose_short (suc k) [] h = refl
choose_short (suc k) (x ∷ xs) h =
    rw (choose_short k xs (omega arith), choose_short (suc k) xs (omega arith)) refl

pub combinations-choose_client {ℓ} :
    {A : Type ℓ} (xs : List A) (k : ℕ) → combinations xs k ≡ choose k xs
unfolding combinations choose
combinations-choose_client [] zero = refl
combinations-choose_client (x ∷ xs) zero = refl
combinations-choose_client [] (suc k) = refl
combinations-choose_client (x ∷ xs) (suc k) = elim (Bool-cases (ltb (suc (length xs)) (suc k))) [
  | inl few ↦
      rw (few, choose_short k xs (ground arith), choose_short (suc k) xs (ground arith)) refl
  | inr enough ↦
      rw (enough, combinations-choose_client xs k, combinations-choose_client xs (suc k)) refl
]

-- The client and the server list the same combinations in the same order, for every list of cards
-- and every size.
client-server {ℓ} :
    {A : Type ℓ} (xs : List A) (k : ℕ) → combinations xs k ≡ Server.combinations xs k
client-server xs k = combinations-choose_client xs k ∙ sym (combinations-choose xs k)

pub choose_some {ℓ} : {A : Type ℓ} (k : ℕ) (xs : List A) → k ≤ length xs → 1 ≤ length (choose k xs)
unfolding choose
choose_some zero [] h = omega arith
choose_some zero (x ∷ xs) h = omega arith
choose_some (suc k) [] h = absurd (omega arith)
choose_some (suc k) (x ∷ xs) h = omega (
  arith,
  length-append (map (◌∷◌ x) (choose k xs)) (choose (suc k) xs),
  length-map (choose k xs) (◌∷◌ x),
  choose_some k xs (omega arith),
)

-- Exactly two hole cards, then exactly three cards of the board.
from_pairs :
    (P : List EvalCard → Type 0) (hs bs : List (List EvalCard))
    → All (λ h. All (λ b. P (h ++ b)) bs) hs
    → All P (flat_map (λ h. map (λ b. h ++ b) bs) hs)
unfolding flat_map
from_pairs P [] bs a = tt
from_pairs P (h ∷ hs) bs a =
    All-append P (map (λ b. h ++ b) bs) _ ((All-map P (λ b. h ++ b) bs).1 a.0)
      (from_pairs P hs bs a.1)

to_pairs :
    (P : List EvalCard → Type 0) (hs bs : List (List EvalCard))
    → All P (flat_map (λ h. map (λ b. h ++ b) bs) hs)
    → All (λ h. All (λ b. P (h ++ b)) bs) hs
unfolding flat_map
to_pairs P [] bs a = tt
to_pairs P (h ∷ hs) bs a =
    let (own, others) =
      All-append_inv P (map (λ b. h ++ b) bs) (flat_map (λ h. map (λ b. h ++ b) bs) hs) a in
    ((All-map P (λ b. h ++ b) bs).0 own, to_pairs P hs bs others)

pub some_pairs :
    (hs bs : List (List EvalCard))
    → 1 ≤ length hs
    → 1 ≤ length bs
    → 1 ≤ length (flat_map (λ h. map (λ b. h ++ b) bs) hs)
unfolding flat_map
some_pairs [] bs x y = absurd (omega arith)
some_pairs (h ∷ hs) bs x y = omega (
  arith,
  length-append (map (λ b. h ++ b) bs) (flat_map (λ h. map (λ b. h ++ b) bs) hs),
  length-map bs (λ b. h ++ b),
)

pub omaha_sound :
    (hole board : List EvalCard)
    → All
        (IsOmahaHand hole board)
        (flat_map (λ h. map (λ b. h ++ b) (choose 3 board)) (choose 2 hole))
omaha_sound hole board = from_pairs (IsOmahaHand hole board) (choose 2 hole) (choose 3 board) (
    All-weaken (Selects 2 hole) _ (choose 2 hole)
      (λ h sh.
        All-weaken (Selects 3 board) _ (choose 3 board) (λ b sb. (h, b, sh, sb, refl))
          (choose_sound 3 board))
      (choose_sound 2 hole))

pub omaha_complete :
    (hole board : List EvalCard) (P : List EvalCard → Type 0)
    → All P (flat_map (λ h. map (λ b. h ++ b) (choose 3 board)) (choose 2 hole))
    → (d : List EvalCard) → IsOmahaHand hole board d
    → P d
omaha_complete hole board P all d (h, b, sh, sb, e) = rw e (
    choose_complete (λ x. P (h ++ x)) sb.0
      (subst (λ n. All (λ x. P (h ++ x)) (choose n board)) (sym sb.1)
        (choose_complete (λ g. All (λ x. P (g ++ x)) (choose 3 board)) sh.0
          (subst (λ n. All (λ g. All (λ x. P (g ++ x)) (choose 3 board)) (choose n hole)) (sym sh.1)
            (to_pairs P (choose 2 hole) (choose 3 board) all)))))
