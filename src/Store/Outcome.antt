-- ===== src/Store/Outcome.antt =====
-- What a call ensures of the value it returns, where it returns one.
use cardgames.Prelude.{Bool, true, false, Option, none, some, ◌≡◌, refl, arith}
use cardgames.Store.{Result, ok, err, Error, ◌>>=◌, or_throw, throw_if}

unfoldable pub Ensures {ℓ κ} : {A : Type ℓ} → (A → Type κ) → Result A → Type κ
Ensures P (ok a) = P a
Ensures P (err e) = Unit

pub Ensures-bind {ℓ κ ξ μ} :
    {A : Type ℓ} {B : Type κ} (P : A → Type ξ) (Q : B → Type μ) (m : Result A) (k : A → Result B)
    → Ensures P m
    → ((a : A) → P a → Ensures Q (k a))
    → Ensures Q (m >>= k)
unfolding Ensures
Ensures-bind P Q (ok a) k h next = next a h
Ensures-bind P Q (err e) k h next = tt

pub Ensures-weaken {ℓ κ ξ} :
    {A : Type ℓ} (P : A → Type κ) (Q : A → Type ξ) (m : Result A)
    → Ensures P m
    → ((a : A) → P a → Q a)
    → Ensures Q m
unfolding Ensures
Ensures-weaken P Q (ok a) h next = next a h
Ensures-weaken P Q (err e) h next = tt

pub Ensures-return {ℓ κ} : {A : Type ℓ} (P : A → Type κ) (a : A) → P a → Ensures P (ok a)
unfolding Ensures
Ensures-return P a h = h

pub Ensures-throw {ℓ κ} : {A : Type ℓ} (P : A → Type κ) (e : Error) → Ensures P (err e)
unfolding Ensures
Ensures-throw P e = tt

pub Ensures-ok {ℓ κ} :
    {A : Type ℓ} (P : A → Type κ) (m : Result A) (a : A) → m ≡ ok a → Ensures P m → P a
unfolding Ensures
Ensures-ok {A = A} P (ok b) a e h = rw (← ok_eq b a e) h
  where
    ok_eq : (u v : A) → ok u ≡ ok v → u ≡ v
    ok_eq u v q = ground arith
Ensures-ok P (err x) a e h = cc

pub or_throw_lem {ℓ} :
    {A : Type ℓ} (o : Option A) (e : Error) → Ensures (λ a. o ≡ some a) (or_throw o e)
unfolding Ensures
or_throw_lem none e = tt
or_throw_lem (some a) e = refl

pub throw_if_lem : (b : Bool) (e : Error) → Ensures (λ _. b ≡ false) (throw_if b e)
unfolding Ensures
throw_if_lem true e = tt
throw_if_lem false e = refl

pub Ensures-nothing {ℓ} : {A : Type ℓ} (m : Result A) → Ensures (λ _. Unit {0}) m
unfolding Ensures
Ensures-nothing (ok a) = tt
Ensures-nothing (err e) = tt

-- The call returns a value, which ensures this.
unfoldable pub Returns {ℓ κ} : {A : Type ℓ} → (A → Type κ) → Result A → Type (ℓ ⊔ κ)
Returns P m = (a : _) × (m ≡ ok a) × P a

pub Returns-bind {ℓ κ ξ} :
    {A : Type ℓ} {B : Type κ} (Q : B → Type ξ) (m : Result A) (k : A → Result B) (a : A)
    → m ≡ ok a
    → Returns Q (k a)
    → Returns Q (m >>= k)
Returns-bind Q m k a e r = rw e r

pub Returns-ok {ℓ κ} : {A : Type ℓ} (P : A → Type κ) (a : A) → P a → Returns P (ok a)
unfolding Returns
Returns-ok P a h = (a, refl, h)

pub Returns-next {ℓ κ ξ μ} :
    {A : Type ℓ} {B : Type κ} (P : A → Type μ) (Q : B → Type ξ) (m : Result A) (k : A → Result B)
    → Returns P m
    → ((a : A) → P a → Returns Q (k a))
    → Returns Q (m >>= k)
unfolding Returns
Returns-next P Q m k r next = let (a, e, h) = r in rw e (next a h)
