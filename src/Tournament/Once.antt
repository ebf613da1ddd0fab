-- ===== src/Tournament/Once.antt =====
-- A user who has an entry in a tournament, active or not.
use cardgames.Prelude.{ℕ, ◌≡◌, refl, true, false, ◌&&◌, ◌||◌, some, arith, ◌==◌}
use cardgames.Store.{Result, Error, ok, err}
use cardgames.Store.Outcome.{Ensures, Ensures-bind, Ensures-throw, Ensures-nothing}
use cardgames.Store.Table.{find-some_weaken}
use cardgames.Tournament.Defs.{TournamentEntry, Hall, create_entry, find_entry}
use cardgames.Tournament.Register.{charge, register_player}
use cardgames.Tournament.Admit.{admit-Ensures}

-- A result that ensures the impossible is an error.
Ensures-never {ℓ} :
    {A : Type ℓ} (m : Result A) → Ensures (λ _. true ≡ false) m → (e : Error) × (m ≡ err e)
unfolding Ensures
Ensures-never (ok a) h = absurd (ground arith)
Ensures-never (err e) h = (e, refl)

create_entry_taken :
    (new old : TournamentEntry) (h : Hall)
    → find_entry new.tournament_id new.user_id h ≡ some old
    → Ensures (λ _. true ≡ false) (create_entry new h)
unfolding create_entry find_entry
create_entry_taken new old h e =
    let (z, found) =
      find-some_weaken _
        (λ e. e.id == new.id || e.tournament_id == new.tournament_id && e.user_id == new.user_id)
        h.entries old (λ y t. ground arith) e in
    rw (found, create_entry) (Ensures-throw _ _)

-- A user who has an entry in the tournament, active or not, cannot register again: the call throws.
pub register_player-once :
    (user tournament_id now entry_id transaction_id : ℕ) (h : Hall) (old : TournamentEntry)
    → find_entry tournament_id user h ≡ some old
    → (e : Error) × (register_player user tournament_id now entry_id transaction_id h ≡ err e)
unfolding register_player find_entry
register_player-once user tournament_id now entry_id transaction_id h old entered =
    Ensures-never _ (
      Ensures-bind _ (λ _. true ≡ false) _ _ (admit-Ensures user tournament_id h)
        λ x ok_to.
          Ensures-bind _ (λ _. true ≡ false) _ _
            (Ensures-nothing (charge x.0 x.1 now transaction_id h.store))
            λ paid _.
              Ensures-bind (λ _. true ≡ false) (λ _. true ≡ false) _ _
                (create_entry_taken _ old _ entered) λ r never. absurd (ground arith))
