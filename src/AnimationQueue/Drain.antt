-- ===== src/AnimationQueue/Drain.antt =====
-- The queue drains: in order, with every essential event shown.
use cardgames.Prelude.{
  ℕ, zero, suc, ◌*◌, ◌≤◌, ◌<◌, ◌≡◌, refl, sym, ◌∙◌, ap, subst, ◌⊎◌, inl, inr, Bool, true, false,
  none, some, List, [], ◌∷◌, ◌++◌, length, ltb, append_assoc, append-nil, arith, ◌==◌, Bool-cases,
  Option-cases,
}
use cardgames.Store.Table.{find}
use cardgames.AnimationQueue.Played.{
  played, played_skip, played_keep, essentials, essentials-played, played_short,
}
use cardgames.AnimationQueue.Defs.{
  AnimationEvent, Hook, should_skip, fire, without, get_speed_multiplier, process, complete,
  advance,
}

-- A completion callback changes the callbacks and the record of the calls, and nothing else.
fire_lem :
    (e : AnimationEvent) (h : Hook)
    → (called on_complete : List ℕ) × (fire e h
        ≡ record h { called = called; on_complete = on_complete })
unfolding fire
fire_lem e h = elim (Option-cases (find (λ k. k == e.id) h.on_complete)) [
  | inl q ↦ (h.called, h.on_complete, rw (q, fire) refl)
  | inr (k, q) ↦ (h.called ++ e.id ∷ [], without e.id h.on_complete, rw (q, fire) refl)
]

pub advances : ℕ → Hook → Hook
advances zero h = h
advances (suc n) h = advances n (advance h)

-- Nothing waits, nothing plays, and these events were shown.
abbrev pub IsDrained : List AnimationEvent → Hook → Type 0
IsDrained shown h = (h.state.queue ≡ []) × (h.state.is_playing ≡ false) × (h.settled ≡ shown)

-- A hook at rest, its queue apart.
abbrev at_rest : List AnimationEvent → Hook → Hook
at_rest q h = record h {
  state = record {
    current = h.state.current;
    queue = q;
    is_playing = false;
    speed_multiplier = h.state.speed_multiplier;
  };
}

skip_step :
    (e : AnimationEvent) (q : List AnimationEvent) (h : Hook)
    → should_skip e (suc (length q)) ≡ true
    → (g : Hook) × (advance (at_rest (e ∷ q) h) ≡ at_rest q g) × (g.settled ≡ h.settled)
unfolding advance process
skip_step e q h skip =
    let (called, on_complete, f) = fire_lem e (at_rest (e ∷ q) h) in
    (
      record h {
        called = called;
        on_complete = on_complete;
        state = record h.state { speed_multiplier = get_speed_multiplier (suc (length q)) };
      },
      rw (skip, f) refl,
      refl,
    )

-- The hook while it plays.
abbrev playing : AnimationEvent → List AnimationEvent → Hook → Hook
playing e q h = record h {
  state = record {
    current = some e;
    queue = q;
    is_playing = true;
    speed_multiplier = get_speed_multiplier (suc (length q));
  };
  timeout = some (e, get_speed_multiplier (suc (length q)));
}

play_step :
    (e : AnimationEvent) (q : List AnimationEvent) (h : Hook)
    → should_skip e (suc (length q)) ≡ false
    → advance (at_rest (e ∷ q) h) ≡ playing e q h
unfolding advance process
play_step e q h keep = rw keep refl

complete_step :
    (e : AnimationEvent) (q : List AnimationEvent) (h : Hook)
    → (g : Hook) × (advance (playing e q h) ≡ at_rest q g) × (g.settled ≡ h.settled ++ e ∷ [])
unfolding advance complete
complete_step e q h =
    let (called, on_complete, f) = fire_lem e (playing e q h) in
    (
      record h {
        called = called;
        on_complete = on_complete;
        timeout = none;
        last_completed = some e;
        settled = h.settled ++ e ∷ [];
        state = record {
          current = none;
          queue = q;
          is_playing = false;
          speed_multiplier = get_speed_multiplier (suc (length q));
        };
      },
      rw f refl,
      refl,
    )

-- Draining after some steps, with the same events shown.
IsDrained-after :
    (g h : Hook) (n : ℕ) (p r : List AnimationEvent)
    → advance h ≡ g
    → p ≡ r
    → IsDrained p (advances n g)
    → IsDrained r (advances (suc n) h)
unfolding advances
IsDrained-after g h n p r step same d =
    subst (λ x. IsDrained r (advances n x)) (sym step)
      (subst (λ x. IsDrained x (advances n g)) same d)

drain :
    (q : List AnimationEvent) (h : Hook)
    → (n : ℕ) × ((n ≤ 2 * length q) × IsDrained (h.settled ++ played q) (advances n (at_rest q h)))
unfolding advances
drain [] h = (0, (omega arith, (refl, refl, unfold played in sym (append-nil h.settled))))
drain (e ∷ q) h = elim (Bool-cases (should_skip e (suc (length q)))) [
  | inl skip ↦
      let (g, step, same) = skip_step e q h skip in
      let (n, (near, d)) = drain q g in
      (
        suc n,
        (
          omega arith,
          IsDrained-after _ _ n _ _ step
              (ap (λ x. x ++ played q) same ∙ ap (λ x. h.settled ++ x) (sym (played_skip e q skip)))
              d,
        ),
      )
  | inr keep ↦
      let (g, step, told) = complete_step e q h in
      let (n, (near, d)) = drain q g in
      (
        suc (suc n),
        (
          omega arith,
          IsDrained-after _ _ (suc n) _ _ (play_step e q h keep) refl (
              IsDrained-after _ _ n _ _ step
                (ap (λ x. x ++ played q) told
                  ∙ append_assoc h.settled (e ∷ []) (played q)
                  ∙ ap (λ x. h.settled ++ x) (sym (played_keep e q keep)))
                d),
        ),
      )
]

-- A hook at rest whose queue gets no more events drains it within two steps for each event: then
-- nothing waits or plays, and the subscribers were told, after the events of before, of events
-- among which are all the essential ones of the queue in its order, and of the whole queue in its
-- order where it had at most five.
pub queue_drains :
    (h : Hook)
    → h.state.is_playing ≡ false
    → (n : ℕ) × (shown : List AnimationEvent) × ((n ≤ 2 * length h.state.queue)
        × IsDrained (h.settled ++ shown) (advances n h)
        × (essentials shown ≡ essentials h.state.queue)
        × ((5 < length h.state.queue) ⊎ (shown ≡ h.state.queue)))
queue_drains h resting =
    let (n, (near, d)) = drain h.state.queue h in
    (
      n,
      played h.state.queue,
      (
        near,
        subst (λ b. IsDrained (h.settled ++ played h.state.queue) (advances n (with b)))
            (sym resting) d,
        essentials-played h.state.queue,
        whole h.state.queue,
      ),
    )
  where
    with : Bool → Hook
    with b = record h { state = record h.state { is_playing = b } }

    whole : (q : List AnimationEvent) → (5 < length q) ⊎ (played q ≡ q)
    whole q = elim (Bool-cases (ltb 5 (length q))) [
      | inl long ↦ inl (ground arith)
      | inr short ↦ inr (played_short q (ground arith))
    ]
