-- ===== src/AnimationQueue/Played.antt =====
-- Which events of a queue are shown, by the catch-up protocol.
use cardgames.Prelude.{
  ℕ, suc, ◌≤◌, ◌≡◌, refl, sym, ◌∙◌, ap, ◌⊎◌, inl, inr, true, false, List, [], ◌∷◌, length, ltb,
  arith, if◌then◌else◌, Bool-cases,
}
use cardgames.AnimationQueue.Defs.{AnimationEvent, Priority, essential, non_essential, should_skip}

-- The events of a queue that are shown when nothing more is enqueued.
unfoldable pub played : List AnimationEvent → List AnimationEvent
unfolding should_skip
played [] = []
played (e ∷ q) = if should_skip e (length (e ∷ q)) then played q else e ∷ played q

pub played_skip :
    (e : AnimationEvent) (q : List AnimationEvent)
    → should_skip e (suc (length q)) ≡ true
    → played (e ∷ q) ≡ played q
unfolding played
played_skip e q skip = rw skip refl

pub played_keep :
    (e : AnimationEvent) (q : List AnimationEvent)
    → should_skip e (suc (length q)) ≡ false
    → played (e ∷ q) ≡ e ∷ played q
unfolding played
played_keep e q keep = rw keep refl

pub essentials : List AnimationEvent → List AnimationEvent
essentials [] = []
essentials (e ∷ q) = elim e.priority [ essential ↦ e ∷ essentials q | non_essential ↦ essentials q ]

Priority-cases : (p : Priority) → (p ≡ essential) ⊎ (p ≡ non_essential)
Priority-cases essential = inl refl
Priority-cases non_essential = inr refl

essentials_keep :
    (e : AnimationEvent) (q : List AnimationEvent)
    → e.priority ≡ essential
    → essentials (e ∷ q) ≡ e ∷ essentials q
unfolding essentials
essentials_keep e q h = simp h

essentials_drop :
    (e : AnimationEvent) (q : List AnimationEvent)
    → e.priority ≡ non_essential
    → essentials (e ∷ q) ≡ essentials q
unfolding essentials
essentials_drop e q h = simp h

should_skip_essential :
    (e : AnimationEvent) (n : ℕ) → e.priority ≡ essential → should_skip e n ≡ false
unfolding should_skip
should_skip_essential e n h = rw h refl

should_skip_short : (e : AnimationEvent) (n : ℕ) → n ≤ 5 → should_skip e n ≡ false
unfolding should_skip
should_skip_short e n h = elim (Priority-cases e.priority) [
  | inl p ↦ rw p refl
  | inr p ↦ rw p (not_long h)
]
  where
    not_long : n ≤ 5 → ltb 5 n ≡ false
    not_long h = ground arith

-- What is shown has every essential event, in the order of the queue.
pub essentials-played : (q : List AnimationEvent) → essentials (played q) ≡ essentials q
unfolding played
essentials-played [] = (unfold essentials in refl)
essentials-played (e ∷ q) = elim (Priority-cases e.priority) [
  | inl p ↦
      ap essentials (played_keep e q (should_skip_essential e (suc (length q)) p))
      ∙ essentials_keep e (played q) p
      ∙ ap (◌∷◌ e) (essentials-played q)
      ∙ sym (essentials_keep e q p)
  | inr p ↦ elim (Bool-cases (should_skip e (suc (length q)))) [
    | inl skip ↦
        ap essentials (played_skip e q skip) ∙ essentials-played q ∙ sym (essentials_drop e q p)
    | inr keep ↦
        ap essentials (played_keep e q keep)
        ∙ essentials_drop e (played q) p
        ∙ essentials-played q
        ∙ sym (essentials_drop e q p)
  ]
]

-- A short queue is shown whole.
pub played_short : (q : List AnimationEvent) → length q ≤ 5 → played q ≡ q
unfolding played
played_short [] h = refl
played_short (e ∷ q) h =
    rw (should_skip_short e (suc (length q)) h) (ap (◌∷◌ e) (played_short q (omega arith)))
