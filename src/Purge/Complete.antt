-- ===== src/Purge/Complete.antt =====
-- The purge ends, and strips the old hands alone.
use cardgames.Prelude.{
  ℕ, zero, suc, ◌+◌, ◌<◌, ◌≡◌, refl, sym, ◌∙◌, ap, true, false, Option, none, some, List, [], ◌∷◌,
  map, ltb, ◌||◌, if◌then◌else◌, ◌⊎◌, inl, inr, Bool-cases, arith,
}
use Prim.Native.String.{String}
use cardgames.Purge.Defs.{
  StoredHand, is_not_null, is_heavy, strip, strip_batch, batch_size, Reaped, reap_batches,
  cutoff_date, reap_alert, reap_old_hand_history,
}

-- Without the replay data where the hand is old.
abbrev pub strip_old : ℕ → StoredHand → StoredHand
strip_old cutoff h = if ltb h.end_time cutoff then strip h else h

unfoldable pub heavy_count : ℕ → List StoredHand → ℕ
heavy_count cutoff [] = 0
heavy_count cutoff (h ∷ hs) =
    let rest = heavy_count cutoff hs in if is_heavy cutoff h then suc rest else rest

zero_or_suc : (k : ℕ) → (k ≡ 0) ⊎ ((j : ℕ) × (k ≡ suc j))
zero_or_suc zero = inl refl
zero_or_suc (suc j) = inr (j, refl)

module _ (cutoff : ℕ) where
  strip-light : (h : StoredHand) → is_heavy cutoff h ≡ false → strip_old cutoff h ≡ h
  strip-light h e = elim (Bool-cases (ltb h.end_time cutoff)) [
    | inl old ↦ rw old (bare h.community_cards h.action_log (rw old at e))
    | inr recent ↦ rw recent refl
  ]
    where
      bare :
          (cards log : Option (List String))
          → (is_not_null log || is_not_null cards) ≡ false
          → strip h ≡ record h { community_cards = cards; action_log = log }
      bare none none e = refl
      bare (some c) none e = cc
      bare c (some l) e = cc

  strip-heavy :
      (h : StoredHand) → is_heavy cutoff h ≡ true → strip_old cutoff (strip h) ≡ strip_old cutoff h
  strip-heavy h e = elim (Bool-cases (ltb h.end_time cutoff)) [
    | inl old ↦ rw old refl
    | inr recent ↦ absurd (ground arith)
  ]

  stripped-light : (h : StoredHand) → is_heavy cutoff (strip h) ≡ false
  stripped-light h = elim (Bool-cases (ltb h.end_time cutoff)) [
    | inl old ↦ rw old refl
    | inr recent ↦ rw recent refl
  ]

  batch-heavy :
      (n : ℕ) (h : StoredHand) (hs : List StoredHand)
      → is_heavy cutoff h ≡ true
      → let rest = strip_batch cutoff n hs in
        strip_batch cutoff (suc n) (h ∷ hs) ≡ (suc rest.0, strip h ∷ rest.1)
  unfolding strip_batch
  batch-heavy n h hs heavy = rw (strip_batch, heavy) refl

  batch-light :
      (n : ℕ) (h : StoredHand) (hs : List StoredHand)
      → is_heavy cutoff h ≡ false
      → let rest = strip_batch cutoff (suc n) hs in
        strip_batch cutoff (suc n) (h ∷ hs) ≡ (rest.0, h ∷ rest.1)
  unfolding strip_batch
  batch-light n h hs light = rw (strip_batch, light) refl

  batch-count :
      (n : ℕ) (hs : List StoredHand)
      → (strip_batch cutoff n hs).0 + heavy_count cutoff (strip_batch cutoff n hs).1
        ≡ heavy_count cutoff hs
  unfolding strip_batch heavy_count
  batch-count zero hs = omega arith
  batch-count (suc n) [] = omega arith
  batch-count (suc n) (h ∷ hs) = elim (Bool-cases (is_heavy cutoff h)) [
    | inl heavy ↦
        rw (batch-heavy n h hs heavy, heavy, stripped-light h) (omega (arith, batch-count n hs))
    | inr light ↦ rw (batch-light n h hs light, light) (batch-count (suc n) hs)
  ]

  batch-same :
      (n : ℕ) (hs : List StoredHand)
      → map (strip_old cutoff) (strip_batch cutoff n hs).1 ≡ map (strip_old cutoff) hs
  unfolding strip_batch
  batch-same zero hs = refl
  batch-same (suc n) [] = refl
  batch-same (suc n) (h ∷ hs) = elim (Bool-cases (is_heavy cutoff h)) [
    | inl heavy ↦ rw (batch-heavy n h hs heavy, batch-same n hs, strip-heavy h heavy) refl
    | inr light ↦ rw (batch-light n h hs light, batch-same (suc n) hs) refl
  ]

  -- A batch that changes nothing finds nothing.
  batch-none :
      (n : ℕ) (hs : List StoredHand)
      → (strip_batch cutoff (suc n) hs).0 ≡ 0
      → heavy_count cutoff hs ≡ 0
  unfolding heavy_count
  batch-none n [] e = refl
  batch-none n (h ∷ hs) e = elim (Bool-cases (is_heavy cutoff h)) [
    | inl heavy ↦ absurd (omega (arith, sym (ap (λ b. b.0) (batch-heavy n h hs heavy)) ∙ e))
    | inr light ↦ rw light (batch-none n hs (sym (ap (λ b. b.0) (batch-light n h hs light)) ∙ e))
  ]

  strip-none : (hs : List StoredHand) → heavy_count cutoff hs ≡ 0 → map (strip_old cutoff) hs ≡ hs
  unfolding heavy_count
  strip-none [] e = refl
  strip-none (h ∷ hs) e = elim (Bool-cases (is_heavy cutoff h)) [
    | inl heavy ↦ absurd (omega (arith, rw heavy at e))
    | inr light ↦ rw (strip-light h light, strip-none hs (rw light at e)) refl
  ]

  -- The whole loop in one step.
  abbrev pub all_stripped : List StoredHand → ℕ → ℕ → Reaped
  all_stripped hs total n = record {
    hands = map (strip_old cutoff) hs;
    total_stripped = total + heavy_count cutoff hs;
    batch_count = n;
  }

  -- What is left when a batch finds nothing.
  last_batch :
      (hs : List StoredHand)
      → (strip_batch cutoff batch_size hs).0 ≡ 0
      → ((strip_batch cutoff batch_size hs).1 ≡ map (strip_old cutoff) hs)
        × (heavy_count cutoff hs ≡ 0)
  last_batch hs e =
      let none_left = batch-none 999 hs e in
      let left = batch-count batch_size hs in
      (
        sym (strip-none (strip_batch cutoff batch_size hs).1 (omega (arith, e, left, none_left)))
            ∙ batch-same batch_size hs,
        none_left,
      )

  last-reap :
      (fuel : ℕ) (hs : List StoredHand) (total batches : ℕ)
      → (strip_batch cutoff batch_size hs).0 ≡ 0
      → reap_batches (suc fuel) cutoff hs total batches ≡ some (all_stripped hs total batches)
  unfolding reap_batches
  last-reap fuel hs total batches e =
      let (rows, none_left) = last_batch hs e in
      let same : total ≡ total + heavy_count cutoff hs = omega (arith, none_left) in
      rw (reap_batches, e)
        (λ i. some (record { hands = rows i; total_stripped = same i; batch_count = batches }))

  next-reap :
      (fuel : ℕ) (hs : List StoredHand) (total batches k : ℕ)
      → (strip_batch cutoff batch_size hs).0 ≡ suc k
      → reap_batches (suc fuel) cutoff hs total batches
        ≡ reap_batches fuel cutoff
            (strip_batch cutoff batch_size hs).1
            (total + suc k)
            (suc batches)
  unfolding reap_batches
  next-reap fuel hs total batches k e = rw (reap_batches, e) refl

  next_same :
      (hs : List StoredHand) (total k n : ℕ)
      → (strip_batch cutoff batch_size hs).0 ≡ suc k
      → all_stripped (strip_batch cutoff batch_size hs).1 (total + suc k) n
        ≡ all_stripped hs total n
  next_same hs total k n e =
      let rest = (strip_batch cutoff batch_size hs).1 in
      let count : total + suc k + heavy_count cutoff rest ≡ total + heavy_count cutoff hs =
        omega (arith, e, batch-count batch_size hs) in
      λ i. record { hands = batch-same batch_size hs i; total_stripped = count i; batch_count = n }

  batches-end :
      (fuel : ℕ) (hs : List StoredHand) (total batches : ℕ)
      → heavy_count cutoff hs < fuel
      → (n : ℕ) × (reap_batches fuel cutoff hs total batches ≡ some (all_stripped hs total n))
  batches-end zero hs total batches h = absurd (omega (arith, h))
  batches-end (suc fuel) hs total batches h =
      elim (zero_or_suc (strip_batch cutoff batch_size hs).0) [
        | inl e ↦ (batches, last-reap fuel hs total batches e)
        | inr (k, e) ↦
            let rest = (strip_batch cutoff batch_size hs).1 in
            let (n, done) =
              batches-end fuel rest (total + suc k) (suc batches)
                (omega (arith, e, h, batch-count batch_size hs)) in
            (n, next-reap fuel hs total batches k e ∙ done ∙ ap some (next_same hs total k n e))
      ]

-- The purge ends and does what it is meant to: with more fuel than there are old hands with replay
-- data, the loop of batches ends; afterwards every hand older than the cutoff is without its replay
-- data and every other column and hand is as before, and the total that is reported is the number of
-- hands that had data to strip.
pub reap_old_hand_history-ends :
    (fuel now : ℕ) (hs : List StoredHand)
    → heavy_count (cutoff_date now) hs < fuel
    → (n : ℕ) × (reap_old_hand_history fuel now hs
        ≡ some (
          all_stripped (cutoff_date now) hs 0 n,
          reap_alert (all_stripped (cutoff_date now) hs 0 n),
        ))
unfolding reap_old_hand_history
reap_old_hand_history-ends fuel now hs h =
    let (n, done) = batches-end (cutoff_date now) fuel hs 0 0 h in
    (n, rw (reap_old_hand_history, done) refl)
