-- ===== src/Tournament/Accepted.antt =====
-- A registration that is accepted.
use cardgames.Prelude.{◌≡◌, refl, ℕ, true, false, some, ==_refl}
use cardgames.Store.Outcome.{Ensures, Ensures-bind, Ensures-return, Ensures-nothing}
use cardgames.Store.Table.{find, find-update_self}
use cardgames.Tournament.Defs.{
  Tournament, TournamentEntry, Hall, find_tournament, find_entry, set_tournament,
}
use cardgames.Tournament.Register.{
  is_registrable, is_full, is_entered, charge, count_in, register_player,
}
use cardgames.Tournament.Admit.{admit-Ensures}
use cardgames.Tournament.Tally.{create_entry-Ensures}

-- The tournament was open, had room, and the user no active entry; now the entry is there, and the
-- counters and the pool have moved.
abbrev pub IsAccepted : ℕ → ℕ → Hall → TournamentEntry × Hall → Type 0
IsAccepted user tournament_id h (entry, after) =
    (t : Tournament) × ((find_tournament tournament_id h ≡ some t)
      × (is_registrable t.status ≡ true)
      × (is_full t.config.seat_cap t.total_entries ≡ false)
      × (is_entered (find_entry tournament_id user h) ≡ false)
      × (find_tournament tournament_id after ≡ some (count_in t t))
      × (find_entry tournament_id user after ≡ some entry)
      × (entry.is_active ≡ true))

-- Where a registration returns an entry, the tournament was open for registration and not full and
-- the user had no active entry in it; afterwards the active entry is the user's entry in it, the
-- counters of entries and of players are one higher, and the pool is the larger of the guaranteed
-- one and the buy-in times the new number of entries.
register_player-IsAccepted :
    (user tournament_id now entry_id transaction_id : ℕ) (h : Hall)
    → Ensures
        (IsAccepted user tournament_id h)
        (register_player user tournament_id now entry_id transaction_id h)
unfolding register_player set_tournament find_tournament find_entry find
register_player-IsAccepted user tournament_id now entry_id transaction_id h =
    let P = IsAccepted user tournament_id h in
    Ensures-bind _ P _ _ (admit-Ensures user tournament_id h) λ x ok_to.
      Ensures-bind _ P _ _ (Ensures-nothing (charge x.0 x.1 now transaction_id h.store)) λ paid _.
        Ensures-bind _ P _ _ (create_entry-Ensures _ _) λ r new. rw (new.1) (
          Ensures-return P _ (
            x.1,
            (
              ok_to.found,
              ok_to.opened,
              ok_to.room,
              ok_to.absent,
              find-update_self (λ (t : Tournament). t.id) tournament_id (count_in x.1) h.tournaments
                  x.1 (λ t. refl) ok_to.found,
              rw (==_refl tournament_id, ==_refl user) refl,
              refl,
            ),
          ))
