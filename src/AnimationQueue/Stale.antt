-- ===== src/AnimationQueue/Stale.antt =====
-- An event that is enqueued between a render and its effect.
use cardgames.Prelude.{
  suc, ◌≡◌, refl, sym, ◌∙◌, ap, inl, inr, Bool, false, List, [], ◌∷◌, ◌++◌, length, Bool-cases,
}
use cardgames.AnimationQueue.Defs.{
  AnimationEvent, AnimationState, Hook, should_skip, process, enqueue,
}

-- The queue after the effect is the rest of the rendered queue, whatever the latest state is.
process-queue :
    (e : AnimationEvent) (rest : List AnimationEvent) (seen : AnimationState) (h : Hook)
    → seen.queue ≡ e ∷ rest
    → seen.is_playing ≡ false
    → (process seen h).state.queue ≡ rest
unfolding process
process-queue e rest seen h q resting = elim (Bool-cases (should_skip e (suc (length rest)))) [
  | inl skip ↦ rw (q, resting, skip) refl
  | inr keep ↦ rw (q, resting, keep) refl
]

-- Where a hook at rest with a queue is rendered and a second event comes before the effect runs,
-- the effect drops that event: the queue is the rest of the rendered one, as if nothing had been
-- enqueued. Where the effect runs on a render of the state after the call, the event is kept.
process-enqueue_stale :
    (e x : AnimationEvent) (rest : List AnimationEvent) (has_callback : Bool) (h : Hook)
    → h.state.queue ≡ e ∷ rest
    → h.state.is_playing ≡ false
    → let called = enqueue x has_callback h in
      ((process h.state called).state.queue ≡ (process h.state h).state.queue)
      × ((process called.state called).state.queue ≡ (process h.state h).state.queue ++ x ∷ [])
unfolding enqueue
process-enqueue_stale e x rest has_callback h q resting =
    let called = enqueue x has_callback h in
    let before = process-queue e rest h.state h q resting in
    (
      process-queue e rest h.state called q resting ∙ sym before,
      process-queue e (rest ++ x ∷ []) called.state called (ap (λ z. z ++ x ∷ []) q) resting
          ∙ ap (λ z. z ++ x ∷ []) (sym before),
    )
