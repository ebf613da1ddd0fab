-- ===== src/Store/Table.antt =====
-- Tables of the database as lists of rows with a unique number: the queries `findUnique`, `update`
-- and `updateMany` of the client library, and how they act on one another.
use cardgames.Prelude.{
  ℕ, suc, ◌≡◌, ◌≢◌, refl, ◌⊎◌, subst, Bool, true, false, ◌&&◌, Option, none, some, List, [], ◌∷◌,
  arith, ◌==◌, if◌then◌else◌, All, ==_refl, ==_iff, Bool-cases, inl, inr,
}

-- `findFirst` by a test.
unfoldable pub find {ℓ} : {A : Type ℓ} → (A → Bool) → List A → Option A
find p [] = none
find p (x ∷ xs) = if p x then some x else find p xs

-- `updateMany`: the number of rows that pass the test, and the table with those rows changed.
pub update_many {ℓ} : {A : Type ℓ} → (A → Bool) → (A → A) → List A → ℕ × List A
update_many p f [] = (0, [])
update_many p f (x ∷ xs) =
    let rest = update_many p f xs in
    if p x then (suc rest.0, f x ∷ rest.1) else (rest.0, x ∷ rest.1)

-- `update` of the rows that pass the test.
unfoldable pub update {ℓ} : {A : Type ℓ} → (A → Bool) → (A → A) → List A → List A
update p f [] = []
update p f (x ∷ xs) = if p x then f x ∷ update p f xs else x ∷ update p f xs

-- The rows have different keys.
abbrev pub UniqueKeys {ℓ} : {A : Type ℓ} → (A → ℕ) → List A → Type ℓ
UniqueKeys key [] = Unit
UniqueKeys key (x ∷ xs) = (find (λ y. key y == key x) xs ≡ none) × UniqueKeys key xs

module _ {ℓ} {A : Type ℓ} where
  pub find-update_key :
      (key : A → ℕ) (k j : ℕ) (f : A → A) (xs : List A)
      → ((x : A) → key (f x) ≡ key x)
      → find (λ x. key x == j) xs ≡ none
      → find (λ x. key x == j) (update (λ x. key x == k) f xs) ≡ none
  unfolding find update
  find-update_key key k j f [] same h = refl
  find-update_key key k j f (x ∷ xs) same h =
      ground (arith, same x, find-update_key key k j f xs same)

  pub UniqueKeys-update :
      (key : A → ℕ) (k : ℕ) (f : A → A) (xs : List A)
      → ((x : A) → key (f x) ≡ key x)
      → UniqueKeys key xs
      → UniqueKeys key (update (λ x. key x == k) f xs)
  unfolding update
  UniqueKeys-update key k f [] same u = tt
  UniqueKeys-update key k f (x ∷ xs) same u = ground (
    arith,
    same x,
    UniqueKeys-update key k f xs same u.1,
    find-update_key key k (key x) f xs same u.0,
  )

  -- What `find` met at the head of a table.
  pub find-cons :
      (p : A → Bool) (y : A) (xs : List A) (x : A)
      → find p (y ∷ xs) ≡ some x
      → (p y ≡ true) × (y ≡ x) ⊎ (p y ≡ false) × (find p xs ≡ some x)
  unfolding find
  find-cons p y xs x h = ground arith

  -- What is found passes the test.
  pub find_test : (p : A → Bool) (xs : List A) (x : A) → find p xs ≡ some x → p x ≡ true
  unfolding find
  find_test p [] x h = cc
  find_test p (y ∷ xs) x h = elim (find-cons p y xs x h) [
    | inl (e, q) ↦ rw (← q) e
    | inr (e, r) ↦ find_test p xs x r
  ]

  -- What is found fails a test that finds nothing.
  pub find_absent :
      (p q : A → Bool) (xs : List A) (x : A) → find q xs ≡ none → find p xs ≡ some x → q x ≡ false
  unfolding find
  find_absent p q [] x n h = cc
  find_absent p q (y ∷ xs) x n h = elim (find-cons p y xs x h) [
    | inl (e, r) ↦ rw (← r) (ground arith)
    | inr (e, r) ↦ find_absent p q xs x (ground arith) r
  ]

  -- What finds nothing keeps finding nothing under a narrower test.
  pub find-none_weaken :
      (p q : A → Bool) (xs : List A)
      → ((x : A) → p x ≡ false → q x ≡ false)
      → find p xs ≡ none
      → find q xs ≡ none
  unfolding find
  find-none_weaken p q [] narrow h = refl
  find-none_weaken p q (x ∷ xs) narrow h = elim (Bool-cases (p x)) [
    | inl e ↦ absurd (ground arith)
    | inr e ↦ rw (narrow x e) (find-none_weaken p q xs narrow (ground arith))
  ]

  -- A row that some query finds is found by its key.
  pub find_by_key :
      (key : A → ℕ) (p : A → Bool) (xs : List A) (x : A)
      → UniqueKeys key xs
      → find p xs ≡ some x
      → find (λ y. key y == key x) xs ≡ some x
  unfolding find
  find_by_key key p [] x u h = cc
  find_by_key key p (y ∷ xs) x u h = elim (find-cons p y xs x h) [
    | inl (e, q) ↦ rw (← q, ==_refl (key y))
    | inr (e, r) ↦
        ground (arith, find_absent p (λ z. key z == key y) xs x u.0 r, find_by_key key p xs x u.1 r)
  ]

  pub All-find {κ} :
      (P : A → Type κ) (p : A → Bool) (xs : List A) (x : A) → All P xs → find p xs ≡ some x → P x
  unfolding find
  All-find P p [] x a h = cc
  All-find P p (y ∷ xs) x a h = elim (find-cons p y xs x h) [
    | inl (e, q) ↦ subst P q a.0
    | inr (e, r) ↦ All-find P p xs x a.1 r
  ]

  pub find-update_self :
      (key : A → ℕ) (k : ℕ) (f : A → A) (xs : List A) (x : A)
      → ((y : A) → key (f y) ≡ key y)
      → find (λ y. key y == k) xs ≡ some x
      → find (λ y. key y == k) (update (λ y. key y == k) f xs) ≡ some (f x)
  unfolding find update
  find-update_self key k f [] x same h = cc
  find-update_self key k f (y ∷ xs) x same h = elim (find-cons (λ z. key z == k) y xs x h) [
    | inl (e, q) ↦ rw (← q, e) (ground (arith, same y))
    | inr (e, r) ↦ rw e (rw e (find-update_self key k f xs x same r))
  ]

  pub find-update_ne :
      (key : A → ℕ) (k j : ℕ) (f : A → A) (xs : List A)
      → ((y : A) → key (f y) ≡ key y)
      → j ≢ k
      → find (λ y. key y == j) (update (λ y. key y == k) f xs) ≡ find (λ y. key y == j) xs
  unfolding find update
  find-update_ne key k j f [] same ne = refl
  find-update_ne key k j f (y ∷ xs) same ne =
      ground (arith, same y, find-update_ne key k j f xs same ne)

  pub find_never : (p : A → Bool) (xs : List A) → ((x : A) → p x ≡ false) → find p xs ≡ none
  unfolding find
  find_never p [] never = refl
  find_never p (x ∷ xs) never = rw (never x) (find_never p xs never)

  pub find-some_weaken :
      (p q : A → Bool) (xs : List A) (x : A)
      → ((y : A) → p y ≡ true → q y ≡ true)
      → find p xs ≡ some x
      → (z : A) × (find q xs ≡ some z)
  unfolding find
  find-some_weaken p q [] x wide h = cc
  find-some_weaken p q (y ∷ xs) x wide h = elim (Bool-cases (q y)) [
    | inl e ↦ (y, rw e)
    | inr e ↦ elim (find-cons p y xs x h) [
      | inl (e', _) ↦ absurd (ground (arith, wide y))
      | inr (_, r) ↦ let (z, f) = find-some_weaken p q xs x wide r in (z, rw e f)
    ]
  ]

  -- The row that some query finds is found by it after its update, if that keeps what is asked.
  pub find-update_found :
      (key : A → ℕ) (p : A → Bool) (f : A → A) (xs : List A) (x : A)
      → UniqueKeys key xs
      → ((y : A) → p (f y) ≡ p y)
      → find p xs ≡ some x
      → find p (update (λ y. key y == key x) f xs) ≡ some (f x)
  unfolding find update
  find-update_found key p f [] x u same h = cc
  find-update_found key p f (y ∷ xs) x u same h = elim (find-cons p y xs x h) [
    | inl (e, q) ↦ rw (← q, ==_refl (key y), same y, e)
    | inr (e, r) ↦
        let other : (key y == key x) ≡ false =
          ground (arith, find_absent p (λ z. key z == key y) xs x u.0 r) in
        rw (other, e, find-update_found key p f xs x u.1 same r)
  ]

  -- What is found elsewhere is not changed by an update of another key.
  pub find-update_apart :
      (key : A → ℕ) (k : ℕ) (p : A → Bool) (f : A → A) (xs : List A) (x : A)
      → ((y : A) → p (f y) ≡ p y)
      → find p xs ≡ some x
      → key x ≢ k
      → find p (update (λ y. key y == k) f xs) ≡ some x
  unfolding find update
  find-update_apart key k p f [] x same h ne = cc
  find-update_apart key k p f (y ∷ xs) x same h ne = elim (find-cons p y xs x h) [
    | inl (e, q) ↦ ground (arith, same y, q)
    | inr (e, rest) ↦ ground (arith, same y, find-update_apart key k p f xs x same rest ne)
  ]

  -- A test that is one of two finds nothing where neither does.
  pub find-none_or :
      (p q r : A → Bool) (xs : List A)
      → ((x : A) → p x ≡ false → q x ≡ false → r x ≡ false)
      → find p xs ≡ none
      → find q xs ≡ none
      → find r xs ≡ none
  unfolding find
  find-none_or p q r [] both hp hq = refl
  find-none_or p q r (x ∷ xs) both hp hq = ground (arith, both x, find-none_or p q r xs both)

  -- An absent key changes nothing.
  pub update_absent :
      (key : A → ℕ) (k : ℕ) (f : A → A) (xs : List A)
      → find (λ y. key y == k) xs ≡ none
      → update (λ y. key y == k) f xs ≡ xs
  unfolding find update
  update_absent key k f [] h = refl
  update_absent key k f (y ∷ xs) h = ground (arith, update_absent key k f xs)

  pub update_id :
      (p : A → Bool) (f : A → A) (xs : List A) → ((x : A) → f x ≡ x) → update p f xs ≡ xs
  unfolding update
  update_id p f [] h = refl
  update_id p f (x ∷ xs) h = ground (arith, h x, update_id p f xs h)

  -- Two updates of one key are one.
  pub update-update :
      (key : A → ℕ) (k : ℕ) (f g : A → A) (xs : List A)
      → ((x : A) → key (g x) ≡ key x)
      → update (λ y. key y == k) f (update (λ y. key y == k) g xs)
        ≡ update (λ y. key y == k) (λ x. f (g x)) xs
  unfolding update
  update-update key k f g [] same = refl
  update-update key k f g (x ∷ xs) same = elim (Bool-cases (key x == k)) [
    | inl e ↦ rw (e, same x, e, update-update key k f g xs same)
    | inr e ↦ rw (e, e, update-update key k f g xs same)
  ]

  update_many_absent :
      (key : A → ℕ) (k : ℕ) (c : A → Bool) (f : A → A) (xs : List A)
      → find (λ y. key y == k) xs ≡ none
      → update_many (λ y. key y == k && c y) f xs ≡ (0, xs)
  unfolding find update_many
  update_many_absent key k c f [] h = refl
  update_many_absent key k c f (y ∷ xs) h = ground (arith, update_many_absent key k c f xs)

  -- With unique keys a conditional update of one key changes its row and counts one, or changes
  -- nothing and counts none.
  pub update_many_one :
      (key : A → ℕ) (k : ℕ) (c : A → Bool) (f : A → A) (xs : List A) (x : A)
      → UniqueKeys key xs
      → find (λ y. key y == k) xs ≡ some x
      → update_many (λ y. key y == k && c y) f xs
        ≡ (if c x then (1, update (λ y. key y == k) f xs) else (0, xs))
  unfolding find update update_many
  update_many_one key k c f [] x u h = cc
  update_many_one key k c f (y ∷ xs) x u h = elim (find-cons (λ z. key z == k) y xs x h) [
    | inl (e, q) ↦
        let here : key y ≡ k = (==_iff (key y) k).0 e in
        let gone : find (λ z. key z == k) xs ≡ none = rw (← here) u.0 in
        rw (← q, e, update_many_absent key k c f xs gone, update_absent key k f xs gone) refl
    | inr (e, r) ↦ rw (e, update_many_one key k c f xs x u.1 r) (ground arith)
  ]

  All-absent {κ} :
      (P Q : A → Type κ) (key : A → ℕ) (k : ℕ) (xs : List A)
      → find (λ y. key y == k) xs ≡ none
      → ((y : A) → key y ≢ k → P y → Q y)
      → All P xs
      → All Q xs
  unfolding find
  All-absent P Q key k [] h other a = tt
  All-absent P Q key k (y ∷ xs) h other a = elim (Bool-cases (key y == k)) [
    | inl e ↦ absurd (ground arith)
    | inr e ↦ (other y (λ same. ground arith) a.0, All-absent P Q key k xs (ground arith) other a.1)
  ]

  -- A predicate of every row, where an update of one key changes the row and what is asked.
  pub All-update {κ} :
      (P Q : A → Type κ) (key : A → ℕ) (k : ℕ) (f : A → A) (xs : List A) (x : A)
      → UniqueKeys key xs
      → find (λ y. key y == k) xs ≡ some x
      → Q (f x)
      → ((y : A) → key y ≢ k → P y → Q y)
      → All P xs
      → All Q (update (λ y. key y == k) f xs)
  unfolding find update
  All-update P Q key k f [] x u h here other a = tt
  All-update P Q key k f (y ∷ xs) x u h here other a = elim (find-cons (λ z. key z == k) y xs x h) [
    | inl (e, q) ↦
        let here_key : key y ≡ k = (==_iff (key y) k).0 e in
        let gone : find (λ z. key z == k) xs ≡ none = rw (← here_key) u.0 in
        rw (e, update_absent key k f xs gone) (rw q here, All-absent P Q key k xs gone other a.1)
    | inr (e, r) ↦
        rw e (other y (λ same. ground arith) a.0, All-update P Q key k f xs x u.1 r here other a.1)
  ]
