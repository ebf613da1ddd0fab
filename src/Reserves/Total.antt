-- ===== src/Reserves/Total.antt =====
-- Sums over the rows of a table.
use cardgames.Prelude.{
  ℕ, ◌≡◌, inl, inr, none, some, List, [], ◌∷◌, ℤ, pos, ◌+ℤ◌, int_laws, parts_of_eq, ◌==◌, ==_iff,
}
use cardgames.Store.Table.{find, update, UniqueKeys, find-cons, update_absent}

-- `COALESCE(SUM(f), 0)`
unfoldable pub total {ℓ} : {A : Type ℓ} → (A → ℤ) → List A → ℤ
total f [] = pos 0
total f (x ∷ xs) = f x +ℤ total f xs

module _ {ℓ} {A : Type ℓ} where
  -- Sums add up row by row.
  pub total-add :
      (f g h : A → ℤ) (xs : List A)
      → ((x : A) → h x ≡ f x +ℤ g x)
      → total h xs ≡ total f xs +ℤ total g xs
  unfolding total
  total-add f g h [] e = omega int_laws
  total-add f g h (x ∷ xs) e =
      omega (int_laws, parts_of_eq _ _ (e x), parts_of_eq _ _ (total-add f g h xs e))

  pub total_ext : (f g : A → ℤ) (xs : List A) → ((x : A) → f x ≡ g x) → total f xs ≡ total g xs
  unfolding total
  total_ext f g [] e = omega int_laws
  total_ext f g (x ∷ xs) e =
      omega (int_laws, parts_of_eq _ _ (e x), parts_of_eq _ _ (total_ext f g xs e))

  pub total_zero : (f : A → ℤ) (xs : List A) → ((x : A) → f x ≡ pos 0) → total f xs ≡ pos 0
  unfolding total
  total_zero f [] e = omega int_laws
  total_zero f (x ∷ xs) e =
      omega (int_laws, parts_of_eq _ _ (e x), parts_of_eq _ _ (total_zero f xs e))

  -- The update of one row by its key moves the sum by what the row's share moves.
  pub total-update :
      (f : A → ℤ) (key : A → ℕ) (k : ℕ) (g : A → A) (xs : List A) (x : A)
      → UniqueKeys key xs
      → find (λ y. key y == k) xs ≡ some x
      → total f (update (λ y. key y == k) g xs) +ℤ f x ≡ total f xs +ℤ f (g x)
  unfolding total find update
  total-update f key k g [] x u h = cc
  total-update f key k g (y ∷ xs) x u h = elim (find-cons (λ z. key z == k) y xs x h) [
    | inl (e, q) ↦
        let here : key y ≡ k = (==_iff (key y) k).0 e in
        let gone : find (λ z. key z == k) xs ≡ none = rw (← here) u.0 in
        rw (e, update_absent key k g xs gone, ← q) (omega int_laws)
    | inr (e, r) ↦ rw e (omega (int_laws, parts_of_eq _ _ (total-update f key k g xs x u.1 r)))
  ]
