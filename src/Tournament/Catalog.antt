-- ===== src/Tournament/Catalog.antt =====
-- What an administrator writes is what is read back.
use cardgames.Prelude.{◌≡◌, refl, ℕ, false, none, some, ◌∷◌, ==_refl}
use cardgames.Store.{ok}
use cardgames.Store.Table.{find, find-update_self}
use cardgames.Tournament.Defs.{Config, Tournament, Hall, find_tournament, set_tournament}
use cardgames.Tournament.Admin.{
  TournamentResponse, Patch, patch, to_response_dto, fresh_tournament, create_tournament,
  update_tournament, find_by_id, is_immutable,
}

-- A tournament that is created under a new id is returned, and read back by that id as it was
-- returned.
pub create_tournament-find_by_id :
    (dto : Config) (admin now new_id : ℕ) (h : Hall)
    → find_tournament new_id h ≡ none
    → (response : TournamentResponse) × (after : Hall) × ((create_tournament dto admin now new_id h
          ≡ ok (response, after))
        × (find_by_id new_id after ≡ ok response))
unfolding create_tournament find_by_id find_tournament find
create_tournament-find_by_id dto admin now new_id h absent = (
  to_response_dto (fresh_tournament dto admin now new_id),
  record h { tournaments = fresh_tournament dto admin now new_id ∷ h.tournaments },
  (rw (absent, create_tournament) refl, rw (==_refl new_id) refl),
)

-- A known tournament whose status allows changes is updated, and read back as the update returned
-- it.
update_tournament-find_by_id :
    (id : ℕ) (dto : Patch) (h : Hall) (t : Tournament)
    → find_tournament id h ≡ some t
    → is_immutable t.status ≡ false
    → (response : TournamentResponse) × (after : Hall) × ((update_tournament id dto h
          ≡ ok (response, after))
        × (find_by_id id after ≡ ok response))
unfolding update_tournament find_by_id find_tournament set_tournament
update_tournament-find_by_id id dto h t e may = (
  to_response_dto (record t { config = patch dto t.config }),
  set_tournament id (λ t. record t { config = patch dto t.config }) h,
  (
    rw (e, may) refl,
    rw
        (find-update_self (λ (t : Tournament). t.id) id
          (λ t. record t { config = patch dto t.config }) h.tournaments t (λ t. refl) e)
        refl,
  ),
)
