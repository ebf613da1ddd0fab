-- ===== src/Tournament/Admit.antt =====
-- The checks of a registration, and the rule for a call that may be refused.
use cardgames.Prelude.{
  ℕ, ◌≡◌, inl, inr, true, false, not, ◌&&◌, some, pos, ltb, ltb_ℤ, Bool-cases, Option-cases,
}
use cardgames.Store.{
  Wallet, Result, ok, err, find_wallet_of, throw_if, ◌>>◌, not_open_for_registration,
  tournament_is_full, already_registered, insufficient_funds,
}
use cardgames.Store.Outcome.{Ensures, Ensures-return, Ensures-throw}
use cardgames.Tournament.Defs.{Tournament, Hall, commit_hall, find_tournament, find_entry}
use cardgames.Tournament.Register.{total_cost, is_registrable, is_full, is_entered, admit}

-- What the checks of a registration leave.
pub record IsAdmitted (user tournament_id : ℕ) (h : Hall) (w : Wallet) (t : Tournament)
    : Type 0 where
  pub own : find_wallet_of user h.store ≡ some w
  pub found : find_tournament tournament_id h ≡ some t
  pub opened : is_registrable t.status ≡ true
  pub room : is_full t.config.seat_cap t.total_entries ≡ false
  pub absent : is_entered (find_entry tournament_id user h) ≡ false
  pub enough :
      (ltb 0 (total_cost t.config) && ltb_ℤ w.real_balance (pos (total_cost t.config))) ≡ false

pub admit-Ensures :
    (user tournament_id : ℕ) (h : Hall)
    → Ensures
        (λ (x : Wallet × Tournament). IsAdmitted user tournament_id h x.0 x.1)
        (admit user tournament_id h)
unfolding admit
admit-Ensures user tournament_id h = elim (Option-cases (find_wallet_of user h.store)) [
  | inl e ↦ rw e (Ensures-throw _ _)
  | inr (w, own) ↦ elim (Option-cases (find_tournament tournament_id h)) [
    | inl e ↦ rw (own, e) (Ensures-throw _ _)
    | inr (t, found) ↦ rw (own, found) (checked w t own found)
  ]
]
  where
    checked :
        (w : Wallet) (t : Tournament)
        → find_wallet_of user h.store ≡ some w
        → find_tournament tournament_id h ≡ some t
        → Ensures
            (λ (x : Wallet × Tournament). IsAdmitted user tournament_id h x.0 x.1)
            (do
              throw_if (not (is_registrable t.status)) not_open_for_registration
              throw_if (is_full t.config.seat_cap t.total_entries) tournament_is_full
              throw_if (is_entered (find_entry tournament_id user h)) already_registered
              throw_if
                  (ltb 0 (total_cost t.config) && ltb_ℤ w.real_balance (pos (total_cost t.config)))
                  insufficient_funds
              ok (w, t))
    checked w t own found = elim (Bool-cases (is_registrable t.status)) [
      | inr e ↦ rw e (Ensures-throw _ _)
      | inl opened ↦ elim (Bool-cases (is_full t.config.seat_cap t.total_entries)) [
        | inl e ↦ rw (opened, e) (Ensures-throw _ _)
        | inr room ↦ elim (Bool-cases (is_entered (find_entry tournament_id user h))) [
          | inl e ↦ rw (opened, room, e) (Ensures-throw _ _)
          | inr absent ↦
              elim (Bool-cases
                (ltb 0 (total_cost t.config) && ltb_ℤ w.real_balance (pos (total_cost t.config)))) [
                  | inl e ↦ rw (opened, room, absent, e) (Ensures-throw _ _)
                  | inr enough ↦
                      rw (opened, room, absent, enough)
                        (Ensures-return _ _ (record {
                          own = own;
                          found = found;
                          opened = opened;
                          room = room;
                          absent = absent;
                          enough = enough;
                        }))
                ]
        ]
      ]
    ]

pub commit_hall_lem {ℓ κ} :
    {A : Type ℓ} (P : Hall → Type κ) (h : Hall) (m : Result (A × Hall))
    → P h
    → Ensures (λ r. P r.1) m
    → P (commit_hall h m)
unfolding Ensures
commit_hall_lem P h (ok (a, after)) before new = new
commit_hall_lem P h (err e) before new = before
