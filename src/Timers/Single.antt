-- ===== src/Timers/Single.antt =====
-- A table never has two timers.
use cardgames.Prelude.{
  ℕ, ◌≤◌, ◌≡◌, refl, sym, ◌∙◌, subst, inl, inr, Bool, true, some, List, [], ◌∷◌, arith, ◌==◌,
  ==_iff, ==_refl, Bool-cases, Option-cases,
}
use cardgames.Store.Table.{find}
use cardgames.Timers.Defs.{
  has_id, Timers, remove_job, set_key, add_job, cancel_timeout, schedule_timeout,
}
use cardgames.Timers.Count.{
  pending, untracked, IsSingle, untracked-none, remove-own, remove-untracked, remove-pending_le,
  remove-untracked_le, add-new, job, added-known, added-known_other, added-single,
  added-single_other,
}

module _ (removable : ℕ → ℕ → Bool) (removes : (t m : ℕ) → removable t m ≡ true) (s : Timers)
    (h : IsSingle s) (t : ℕ) where
  named_clear : (m : ℕ) → s.tracked t ≡ some m → pending t (remove_job t m s.queue) ≡ 0
  named_clear m e = remove-own t m s.queue ∙ subst (λ k. untracked t k s.queue ≡ 0) e (h.known t)

  cancelled : Timers
  cancelled = cancel_timeout removable t s

  cancel-IsSingle : IsSingle cancelled
  unfolding cancelled cancel_timeout
  cancel-IsSingle = elim (Option-cases (s.tracked t)) [
    | inl e ↦ rw (cancel_timeout, e) h
    | inr (m, e) ↦
        rw (cancel_timeout, e, removes t m)
          (record {
            known = λ u. elim (Bool-cases (u == t)) [
              | inl same ↦
                  let q : u ≡ t = (==_iff u t).0 same in
                  rw q
                    (rw (==_refl t) (untracked-none t (remove_job t m s.queue) ∙ named_clear m e))
              | inr other ↦
                  rw other
                    (remove-untracked t m u (s.tracked u) s.queue (λ q. ground arith) ∙ h.known u)
            ];
            single = λ u. omega (arith, remove-pending_le t m u s.queue, h.single u);
          })
  ]

  cancel_clears : pending t cancelled.queue ≡ 0
  unfolding cancelled cancel_timeout
  cancel_clears = elim (Option-cases (s.tracked t)) [
    | inl e ↦
        rw (cancel_timeout, e)
          (sym (untracked-none t s.queue) ∙ subst (λ k. untracked t k s.queue ≡ 0) e (h.known t))
    | inr (m, e) ↦ rw (cancel_timeout, e, removes t m) (named_clear m e)
  ]

-- A new job of a table that has none, with its key.
with_job-IsSingle :
    (t now seat delay : ℕ) (s : Timers)
    → IsSingle s
    → pending t s.queue ≡ 0
    → IsSingle (record {
      queue = add_job (record { table = t; moment = now; seat = seat; delay = delay }) s.queue;
      tracked = set_key t (some now) s.tracked;
    })
with_job-IsSingle t now seat delay s h clear =
    rw (add-new (job t now seat delay s.queue) s.queue clear) (record {
      known = λ u. elim (Bool-cases (u == t)) [
        | inl same ↦
            subst
              (λ z.
                untracked z (set_key t (some now) s.tracked z)
                  (job t now seat delay s.queue ∷ s.queue)
                ≡ 0)
              (sym ((==_iff u t).0 same))
              (rw (==_refl t) (added-known t now seat delay s.queue clear))
        | inr other ↦
            rw other (added-known_other t now seat delay s.queue u (s.tracked u) other ∙ h.known u)
      ];
      single = λ u. elim (Bool-cases (u == t)) [
        | inl same ↦
            subst (λ z. pending z (job t now seat delay s.queue ∷ s.queue) ≤ 1)
              (sym ((==_iff u t).0 same)) (added-single t now seat delay s.queue clear)
        | inr other ↦ omega (arith, added-single_other t now seat delay s.queue u other, h.single u)
      ];
    })

-- A turn that begins has its job in the queue.
pub schedule_timeout-find :
    (removable : ℕ → ℕ → Bool) (removes : (t m : ℕ) → removable t m ≡ true)
    (t seat duration_ms now : ℕ) (s : Timers)
    → IsSingle s
    → find (has_id t now) (schedule_timeout removable t seat duration_ms now s).queue
      ≡ some (record { table = t; moment = now; seat = seat; delay = duration_ms })
unfolding schedule_timeout find
schedule_timeout-find removable removes t seat duration_ms now s h =
    rw
      (add-new (record { table = t; moment = now; seat = seat; delay = duration_ms })
        (cancel_timeout removable t s).queue
        (unfold cancelled in cancel_clears removable removes s h t))
      (rw (==_refl t, ==_refl now) refl)

-- What happens to the timers: a turn begins, is cancelled, or its job is due and leaves the queue.
pub data TimerEvent : Type 0 where
  schedule : ℕ → ℕ → ℕ → ℕ → TimerEvent
  cancel : ℕ → TimerEvent
  due : ℕ → ℕ → TimerEvent

unfoldable pub happen : (ℕ → ℕ → Bool) → TimerEvent → Timers → Timers
happen removable (schedule table seat duration_ms now) s =
    schedule_timeout removable table seat duration_ms now s
happen removable (cancel table) s = cancel_timeout removable table s
happen removable (due table moment) s = record s { queue = remove_job table moment s.queue }

unfoldable pub happen_all : (ℕ → ℕ → Bool) → List TimerEvent → Timers → Timers
unfolding happen
happen_all removable [] s = s
happen_all removable (e ∷ es) s = happen_all removable es (happen removable e s)

pub happen-IsSingle :
    (removable : ℕ → ℕ → Bool) (removes : (t m : ℕ) → removable t m ≡ true) (e : TimerEvent)
    (s : Timers)
    → IsSingle s
    → IsSingle (happen removable e s)
unfolding happen schedule_timeout
happen-IsSingle removable removes (schedule table seat duration_ms now) s h =
    with_job-IsSingle table now seat duration_ms (cancel_timeout removable table s)
      (unfold cancelled in cancel-IsSingle removable removes s h table)
      (unfold cancelled in cancel_clears removable removes s h table)
happen-IsSingle removable removes (cancel table) s h =
    unfold cancelled in cancel-IsSingle removable removes s h table
happen-IsSingle removable removes (due table moment) s h = record {
  known = λ u. omega (arith, remove-untracked_le table moment u (s.tracked u) s.queue, h.known u);
  single = λ u. omega (arith, remove-pending_le table moment u s.queue, h.single u);
}

-- A table never has two timers: where the removal of a delayed job succeeds, after any sequence of
-- turns that begin, turns that are cancelled and jobs that are due, every delayed job of a table is
-- the one that the table's key names, and there is at most one, if it is so at the start.
pub happen_all-IsSingle :
    (removable : ℕ → ℕ → Bool) (removes : (t m : ℕ) → removable t m ≡ true) (es : List TimerEvent)
    (s : Timers)
    → IsSingle s
    → IsSingle (happen_all removable es s)
unfolding happen_all
happen_all-IsSingle removable removes [] s h = h
happen_all-IsSingle removable removes (e ∷ es) s h =
    happen_all-IsSingle removable removes es (happen removable e s)
      (happen-IsSingle removable removes e s h)
