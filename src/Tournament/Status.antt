-- ===== src/Tournament/Status.antt =====
-- The status of a tournament, and its end.
use cardgames.Prelude.{
  ℕ, ◌≡◌, refl, inl, inr, true, false, none, some, List, [], ◌∷◌, arith, ◌==◌, Bool-cases,
}
use cardgames.Store.{ok}
use cardgames.Store.Table.{find, update, find-update_self}
use cardgames.Tournament.Defs.{
  Tournament, TournamentStatus, TournamentEntry, Hall, find_tournament, remove, set_tournament,
  same_status,
}
use cardgames.Tournament.Admin.{delete, transition_status, set_status, is_under_way}
use cardgames.Tournament.Tally.{count_entries}

pub same_status_eq : (a b : TournamentStatus) → same_status a b ≡ true → a ≡ b
same_status_eq a b h = ground arith

pub set_status-id :
    (s : TournamentStatus) (now : ℕ) (t : Tournament) → (set_status s now t).id ≡ t.id
set_status-id s now t = ground arith

set_status-status :
    (s : TournamentStatus) (now : ℕ) (t : Tournament) → (set_status s now t).status ≡ s
set_status-status s now t = ground arith

-- A transition of a known tournament always succeeds, from any status to any other: it returns the
-- status of before, and the tournament then has the status asked for.
transition_status_total :
    (id : ℕ) (new_status : TournamentStatus) (now : ℕ) (h : Hall) (t : Tournament)
    → find_tournament id h ≡ some t
    → (after : Hall) × (t' : Tournament) × ((transition_status id new_status now h
          ≡ ok (t.status, after))
        × (find_tournament id after ≡ some t')
        × (t'.status ≡ new_status))
unfolding transition_status set_tournament find_tournament
transition_status_total id new_status now h t e =
    elim (Bool-cases (same_status t.status new_status)) [
      | inl same ↦ (h, t, (rw (e, same) refl, e, same_status_eq _ _ same))
      | inr other ↦ elim (Bool-cases h.store.redis_up) [
        | inl up ↦ (
          record (set_tournament id (set_status new_status now) h) {
            changes =
                record {
                  tournament_id = id;
                  old_status = t.status;
                  new_status = new_status;
                  timestamp = now;
                }
                ∷ h.changes;
          },
          set_status new_status now t,
          (rw (e, other, up) refl, written, set_status-status new_status now t),
        )
        | inr down ↦ (
          set_tournament id (set_status new_status now) h,
          set_status new_status now t,
          (rw (e, other, down) refl, written, set_status-status new_status now t),
        )
      ]
    ]
  where
    written :
        find (λ t. t.id == id) (update (λ t. t.id == id) (set_status new_status now) h.tournaments)
        ≡ some (set_status new_status now t)
    written = find-update_self (λ t. t.id) id _ h.tournaments t (set_status-id new_status now) e

remove_count :
    (id : ℕ) (es : List TournamentEntry)
    → count_entries id (remove (λ e. e.tournament_id == id) es) ≡ 0
unfolding remove count_entries
remove_count id [] = refl
remove_count id (e ∷ es) = ground (arith, remove_count id es)

remove_found :
    (id : ℕ) (ts : List Tournament) → find (λ t. t.id == id) (remove (λ t. t.id == id) ts) ≡ none
unfolding remove find
remove_found id [] = refl
remove_found id (t ∷ ts) = ground (arith, remove_found id ts)

-- A known tournament that is neither running nor on a break is deleted with its entries, also while
-- players are registered: no wallet and no ledger row changes.
delete_lem :
    (id : ℕ) (h : Hall) (t : Tournament)
    → find_tournament id h ≡ some t
    → is_under_way t.status ≡ false
    → (after : Hall) × ((delete id h ≡ ok (t, after))
        × (find_tournament id after ≡ none)
        × (count_entries id after.entries ≡ 0)
        × (after.store ≡ h.store))
unfolding delete find_tournament
delete_lem id h t e early = (
  record h {
    tournaments = remove (λ t. t.id == id) h.tournaments;
    entries = remove (λ e. e.tournament_id == id) h.entries;
  },
  (rw (e, early) refl, remove_found id h.tournaments, remove_count id h.entries, refl),
)
