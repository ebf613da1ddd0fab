-- ===== src/Tournament/Leave.antt =====
-- Unregistering and deleting keep the counters.
use cardgames.Prelude.{
  ℕ, ◌+◌, ◌≡◌, ◌≢◌, refl, sym, ◌∙◌, ap, inl, inr, Bool, true, false, ◌&&◌, none, some, List, [],
  ◌∷◌, arith, pos, ◌-ℤ◌, ◌==◌, ==_iff, Bool-cases, Option-cases, if◌then◌else◌,
}
use cardgames.Store.{ok, err, ◌>>=◌, registration_not_found}
use cardgames.Store.Outcome.{Ensures, Ensures-bind, Ensures-return, Ensures-throw, Ensures-nothing}
use cardgames.Store.Table.{
  find, find_test, find_by_key, All-find, UniqueKeys, UniqueKeys-update, All-update,
}
use cardgames.Tournament.Defs.{
  Tournament, TournamentEntry, Hall, commit_hall, set_tournament, find_tournament, find_entry,
  remove,
}
use cardgames.Tournament.Unregister.{give_back, may_leave, unregister_player, is_unregisterable}
use cardgames.Tournament.Admit.{commit_hall_lem}
use cardgames.Tournament.Tally.{IsCounted, IsTallied, count_entries, count-remove, one_less}

-- What the checks of an unregistration leave.
pub record IsLeaving (user tournament_id : ℕ) (h : Hall) (t : Tournament) (e : TournamentEntry)
    : Type 0 where
  pub found : find_tournament tournament_id h ≡ some t
  pub early : is_unregisterable t.status ≡ true
  pub entered : find_entry tournament_id user h ≡ some e
  pub active : e.is_active ≡ true

pub may_leave-Ensures :
    (user tournament_id : ℕ) (h : Hall)
    → Ensures
        (λ (x : Tournament × TournamentEntry). IsLeaving user tournament_id h x.0 x.1)
        (may_leave user tournament_id h)
unfolding may_leave
may_leave-Ensures user tournament_id h = elim (Option-cases (find_tournament tournament_id h)) [
  | inl e ↦ rw e (Ensures-throw _ _)
  | inr (t, found) ↦ elim (Bool-cases (is_unregisterable t.status)) [
    | inr e ↦ rw (found, e) (Ensures-throw _ _)
    | inl early ↦ elim (Option-cases (find_entry tournament_id user h)) [
      | inl e ↦ rw (found, early, e) (Ensures-throw _ _)
      | inr (entry, entered) ↦
          rw (found, early, entered) (checked t entry found early entered entry.is_active refl)
    ]
  ]
]
  where
    checked :
        (t : Tournament) (entry : TournamentEntry)
        → find_tournament tournament_id h ≡ some t
        → is_unregisterable t.status ≡ true
        → find_entry tournament_id user h ≡ some entry
        → (b : Bool) → entry.is_active ≡ b
        → Ensures
            (λ (x : Tournament × TournamentEntry). IsLeaving user tournament_id h x.0 x.1)
            ((if b then ok entry else err registration_not_found) >>= λ e. ok (t, e))
    checked t entry found early entered false active = Ensures-throw _ _
    checked t entry found early entered true active =
        Ensures-return _ _
          (record { found = found; early = early; entered = entered; active = active })

find-remove :
    (p : TournamentEntry → Bool) (q : TournamentEntry → Bool) (es : List TournamentEntry)
    → find q es ≡ none
    → find q (remove p es) ≡ none
unfolding find remove
find-remove p q [] h = refl
find-remove p q (e ∷ es) h = ground (arith, find-remove p q es)

UniqueKeys-remove :
    (p : TournamentEntry → Bool) (es : List TournamentEntry)
    → UniqueKeys (λ (e : TournamentEntry). e.id) es
    → UniqueKeys (λ (e : TournamentEntry). e.id) (remove p es)
unfolding remove
UniqueKeys-remove p [] u = tt
UniqueKeys-remove p (e ∷ es) u = elim (Bool-cases (p e)) [
  | inl t ↦ rw t (UniqueKeys-remove p es u.1)
  | inr t ↦ rw t (find-remove p _ es u.0, UniqueKeys-remove p es u.1)
]

entry_tournament :
    (tournament_id user : ℕ) (h : Hall) (e : TournamentEntry)
    → find_entry tournament_id user h ≡ some e
    → e.tournament_id ≡ tournament_id
unfolding find_entry
entry_tournament tournament_id user h e entered = ground (
  arith,
  find_test (λ z. z.tournament_id == tournament_id && z.user_id == user) h.entries e entered,
)

module _ (h : Hall) (tallied : IsTallied h) (e : TournamentEntry) where
  gone : List TournamentEntry
  gone = remove (λ z. z.id == e.id) h.entries

  count-gone :
      (j : ℕ)
      → find (λ z. z.id == e.id) h.entries ≡ some e
      → count_entries j h.entries ≡ (if e.tournament_id == j then 1 else 0) + count_entries j gone
  unfolding gone
  count-gone j found = count-remove e.id h.entries e j tallied.unique_entries found

  counted_out :
      (t : Tournament)
      → find (λ z. z.id == e.id) h.entries ≡ some e
      → e.tournament_id ≡ t.id
      → t.total_entries ≡ pos (count_entries t.id h.entries)
      → t.total_entries -ℤ pos 1 ≡ pos (count_entries t.id gone)
  counted_out t found own c = one_less _ _ _ c (ground (arith, count-gone t.id found))

  not_counted :
      (j : ℕ)
      → find (λ z. z.id == e.id) h.entries ≡ some e
      → e.tournament_id ≢ j
      → count_entries j h.entries ≡ count_entries j gone
  not_counted j found ne = ground (arith, count-gone j found)

-- Where the ids of tournaments and entries are unique and every tournament's counter of entries is
-- the number of its entries, the same holds after an unregistration, whether it is accepted or
-- refused.
pub unregister_player-IsTallied :
    (user tournament_id now transaction_id : ℕ) (h : Hall)
    → IsTallied h
    → IsTallied (commit_hall h (unregister_player user tournament_id now transaction_id h))
unfolding unregister_player set_tournament find_tournament find_entry gone
unregister_player-IsTallied user tournament_id now transaction_id h tallied =
    let P : TournamentEntry × Hall → Type 0 = λ r. IsTallied r.1 in
    commit_hall_lem IsTallied h _ tallied (
      Ensures-bind _ P _ _ (may_leave-Ensures user tournament_id h) λ x may.
        Ensures-bind _ P _ _ (Ensures-nothing (give_back user x.0 now transaction_id h.store))
          λ paid _.
            let found : find (λ z. z.id == x.1.id) h.entries ≡ some x.1 =
              find_by_key (λ z. z.id) _ h.entries x.1 tallied.unique_entries may.entered in
            let own : x.1.tournament_id ≡ tournament_id =
              entry_tournament tournament_id user h x.1 may.entered in
            let key : x.0.id ≡ tournament_id =
              (==_iff _ _).0 (find_test _ h.tournaments x.0 may.found) in
            Ensures-return _ _ (record {
              unique_tournaments =
                  UniqueKeys-update (λ t. t.id) tournament_id _ h.tournaments (λ t. refl)
                    tallied.unique_tournaments;
              unique_entries = UniqueKeys-remove _ h.entries tallied.unique_entries;
              counted =
                  All-update (IsCounted h.entries) (IsCounted (gone h tallied x.1)) (λ t. t.id)
                    tournament_id _ h.tournaments x.0 tallied.unique_tournaments may.found
                    (counted_out h tallied x.1 x.0 found (own ∙ sym key) (
                      All-find (IsCounted h.entries) _ h.tournaments x.0 tallied.counted may.found))
                    (λ t ne c.
                      c ∙ ap pos (not_counted h tallied x.1 t.id found (λ e. ne (sym e ∙ own))))
                    tallied.counted;
            }))
