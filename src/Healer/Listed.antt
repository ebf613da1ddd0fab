-- ===== src/Healer/Listed.antt =====
-- What puts a buy-in on the list of the sweep.
use cardgames.Prelude.{
  ℕ, ◌-◌, ◌*◌, ◌≡◌, refl, subst, true, false, some, List, [], ◌∷◌, leb, inl, inr, Bool-cases,
  Option-cases,
}
use mathlib.Core.List.{Memᴰ}
use cardgames.Store.{Store, Wallet, Transaction, find_wallet}
use cardgames.Healer.Defs.{
  Orphan, is_stale, orphan_of, stale_rows, insert_by, order_by, has, without_seated,
  find_orphaned_transactions,
}

-- The moment before which a buy-in is old: two hours ago.
abbrev pub cutoff_at : ℕ → ℕ
cutoff_at now = now - 2 * 60 * 60 * 1000

module _ (created_at : ℕ → ℕ) where
  insert-has : (o p : Orphan) (ps : List Orphan) → Memᴰ o ps → Memᴰ o (insert_by created_at p ps)
  unfolding insert_by
  insert-has o p [] m = elim m [ ]
  insert-has o p (q ∷ qs) (Memᴰ.head same) =
      elim (Bool-cases (leb (created_at p.id) (created_at q.id))) [
        | inl first ↦ rw first (Memᴰ.tail (Memᴰ.head same))
        | inr later ↦ rw later (Memᴰ.head same)
      ]
  insert-has o p (q ∷ qs) (Memᴰ.tail m) =
      elim (Bool-cases (leb (created_at p.id) (created_at q.id))) [
        | inl first ↦ rw first (Memᴰ.tail (Memᴰ.tail m))
        | inr later ↦ rw later (Memᴰ.tail (insert-has o p qs m))
      ]

  insert_self : (o : Orphan) (ps : List Orphan) → Memᴰ o (insert_by created_at o ps)
  unfolding insert_by
  insert_self o [] = Memᴰ.head refl
  insert_self o (q ∷ qs) = elim (Bool-cases (leb (created_at o.id) (created_at q.id))) [
    | inl first ↦ rw first (Memᴰ.head refl)
    | inr later ↦ rw later (Memᴰ.tail (insert_self o qs))
  ]

  order-has : (o : Orphan) (os : List Orphan) → Memᴰ o os → Memᴰ o (order_by created_at os)
  unfolding order_by
  order-has o [] m = elim m [ ]
  order-has o (p ∷ ps) (Memᴰ.head same) =
      subst (λ q. Memᴰ o (insert_by created_at q (order_by created_at ps))) same
        (insert_self o (order_by created_at ps))
  order-has o (p ∷ ps) (Memᴰ.tail m) = insert-has o p (order_by created_at ps) (order-has o ps m)

  seated-keeps :
      (seated : List ℕ) (o : Orphan) (os : List Orphan)
      → has o.user_id seated ≡ false
      → Memᴰ o os
      → Memᴰ o (without_seated seated os)
  unfolding without_seated
  seated-keeps seated o [] away m = elim m [ ]
  seated-keeps seated o (p ∷ ps) away (Memᴰ.head same) =
      rw (subst (λ q. has q.user_id seated ≡ false) same away) (Memᴰ.head same)
  seated-keeps seated o (p ∷ ps) away (Memᴰ.tail m) = elim (Bool-cases (has p.user_id seated)) [
    | inl there ↦ rw there (seated-keeps seated o ps away m)
    | inr gone ↦ rw gone (Memᴰ.tail (seated-keeps seated o ps away m))
  ]

  stale-has :
      (cutoff : ℕ) (s : Store) (t : Transaction) (w : Wallet) (ts : List Transaction)
      → find_wallet t.wallet_id s ≡ some w
      → is_stale created_at cutoff s.transactions t ≡ true
      → Memᴰ t ts
      → Memᴰ (orphan_of t w.user_id) (stale_rows created_at cutoff s ts)
  unfolding stale_rows
  stale-has cutoff s t w [] e stale m = elim m [ ]
  stale-has cutoff s t w (u ∷ us) e stale (Memᴰ.head same) =
      subst (λ q. Memᴰ (orphan_of t w.user_id) (stale_rows created_at cutoff s (q ∷ us))) same
        (rw (stale_rows, e, stale) (Memᴰ.head refl))
  stale-has cutoff s t w (u ∷ us) e stale (Memᴰ.tail m) =
      let later = stale-has cutoff s t w us e stale m in
      elim (Option-cases (find_wallet u.wallet_id s)) [
        | inl none_there ↦ rw (stale_rows, none_there) later
        | inr (v, there) ↦ elim (Bool-cases (is_stale created_at cutoff s.transactions u)) [
          | inl old ↦ rw (stale_rows, there, old) (Memᴰ.tail later)
          | inr recent ↦ rw (stale_rows, there, recent) later
        ]
      ]

  -- A stale row of a user who is not seated is listed.
  pub orphan-listed :
      (seated : List ℕ) (now : ℕ) (s : Store) (t : Transaction) (w : Wallet)
      → find_wallet t.wallet_id s ≡ some w
      → Memᴰ t s.transactions
      → is_stale created_at (cutoff_at now) s.transactions t ≡ true
      → has w.user_id seated ≡ false
      → Memᴰ (orphan_of t w.user_id) (find_orphaned_transactions created_at seated now s)
  unfolding find_orphaned_transactions
  orphan-listed seated now s t w e stored stale away =
      seated-keeps seated (orphan_of t w.user_id) _ away (
        order-has (orphan_of t w.user_id) _
          (stale-has (cutoff_at now) s t w s.transactions e stale stored))
