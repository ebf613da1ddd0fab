-- ===== src/Tournament/Tally.antt =====
-- The counters of a tournament and its entries.
use cardgames.Prelude.{
  ℕ, suc, ◌+◌, ◌≡◌, ◌≢◌, refl, sym, ◌∙◌, ap, inl, inr, ◌&&◌, ◌||◌, none, some, List, [], ◌∷◌, arith,
  ℤ, pos, ◌+ℤ◌, ◌-ℤ◌, int_laws, parts_of_eq, ◌==◌, ==_iff, Option-cases, if◌then◌else◌, All,
}
use cardgames.Store.Outcome.{Ensures, Ensures-bind, Ensures-return, Ensures-throw, Ensures-nothing}
use cardgames.Store.Table.{
  find, find-cons, find_test, All-find, UniqueKeys, UniqueKeys-update, All-update, find-none_weaken,
}
use cardgames.Tournament.Defs.{
  Tournament, TournamentEntry, Hall, create_entry, commit_hall, set_tournament, find_tournament,
  remove,
}
use cardgames.Tournament.Register.{charge, register_player}
use cardgames.Tournament.Admit.{admit-Ensures, commit_hall_lem}

-- The number of entries in a tournament.
unfoldable pub count_entries : ℕ → List TournamentEntry → ℕ
count_entries k [] = 0
count_entries k (e ∷ es) = (if e.tournament_id == k then 1 else 0) + count_entries k es

-- The counter of the row is the number of its entries.
abbrev pub IsCounted : List TournamentEntry → Tournament → Type 0
IsCounted es t = t.total_entries ≡ pos (count_entries t.id es)

pub record IsTallied (h : Hall) : Type 0 where
  pub unique_tournaments : UniqueKeys (λ (t : Tournament). t.id) h.tournaments
  pub unique_entries : UniqueKeys (λ (e : TournamentEntry). e.id) h.entries
  pub counted : All (IsCounted h.entries) h.tournaments

count-in :
    (new : TournamentEntry) (es : List TournamentEntry) (k : ℕ)
    → k ≡ new.tournament_id
    → count_entries k (new ∷ es) ≡ suc (count_entries k es)
unfolding count_entries
count-in new es k own = ground arith

one_more : (n : ℤ) (c d : ℕ) → n ≡ pos c → d ≡ suc c → n +ℤ pos 1 ≡ pos d
one_more n c d same next = omega (int_laws, parts_of_eq _ _ same)

pub one_less : (n : ℤ) (c d : ℕ) → n ≡ pos c → c ≡ suc d → n -ℤ pos 1 ≡ pos d
one_less n c d same next = omega (int_laws, parts_of_eq _ _ same)

count-other :
    (new : TournamentEntry) (es : List TournamentEntry) (k : ℕ)
    → k ≢ new.tournament_id
    → count_entries k (new ∷ es) ≡ count_entries k es
unfolding count_entries
count-other new es k ne = ground arith

pub create_entry-Ensures :
    (new : TournamentEntry) (h : Hall)
    → Ensures
        (λ (r : TournamentEntry × Hall).
          (find (λ e. e.id == new.id) h.entries ≡ none)
          × (r ≡ (new, record h { entries = new ∷ h.entries })))
        (create_entry new h)
unfolding create_entry
create_entry-Ensures new h =
    elim (Option-cases (
      find (λ e. e.id == new.id || e.tournament_id == new.tournament_id && e.user_id == new.user_id)
        h.entries)) [
          | inl e ↦
              rw (e, create_entry)
                (Ensures-return _ _ (find-none_weaken _ _ h.entries (λ x. ground arith) e, refl))
          | inr (old, e) ↦ rw (e, create_entry) (Ensures-throw _ _)
        ]

-- Where the ids of tournaments and entries are unique and every tournament's counter of entries is
-- the number of its entries, the same holds after a registration, whether it is accepted or
-- refused.
pub register_player-IsTallied :
    (user tournament_id now entry_id transaction_id : ℕ) (h : Hall)
    → IsTallied h
    → IsTallied (commit_hall h (register_player user tournament_id now entry_id transaction_id h))
unfolding register_player set_tournament find_tournament
register_player-IsTallied user tournament_id now entry_id transaction_id h tallied =
    let P : TournamentEntry × Hall → Type 0 = λ r. IsTallied r.1 in
    commit_hall_lem IsTallied h _ tallied (
      Ensures-bind _ P _ _ (admit-Ensures user tournament_id h) λ x ok_to.
        Ensures-bind _ P _ _ (Ensures-nothing (charge x.0 x.1 now transaction_id h.store)) λ paid _.
          Ensures-bind _ P _ _ (create_entry-Ensures _ _) λ r new. rw (new.1) (
            Ensures-return _ _ (record {
              unique_tournaments =
                  UniqueKeys-update (λ t. t.id) tournament_id _ h.tournaments (λ t. refl)
                    tallied.unique_tournaments;
              unique_entries = (new.0, tallied.unique_entries);
              counted =
                  All-update (IsCounted h.entries) (IsCounted _) (λ t. t.id) tournament_id _
                    h.tournaments x.1 tallied.unique_tournaments ok_to.found
                    (one_more _ _ _
                      (All-find (IsCounted h.entries) _ h.tournaments x.1 tallied.counted
                        ok_to.found)
                      (count-in _ h.entries x.1.id
                        ((==_iff _ _).0 (find_test _ h.tournaments x.1 ok_to.found))))
                    (λ t ne c. c ∙ ap pos (sym (count-other _ h.entries t.id ne))) tallied.counted;
            })))

pub count-remove :
    (k : ℕ) (es : List TournamentEntry) (e : TournamentEntry) (j : ℕ)
    → UniqueKeys (λ (e : TournamentEntry). e.id) es
    → find (λ z. z.id == k) es ≡ some e
    → count_entries j es
      ≡ (if e.tournament_id == j then 1 else 0) + count_entries j (remove (λ z. z.id == k) es)
unfolding count_entries remove find
count-remove k [] e j u h = cc
count-remove k (d ∷ es) e j u h = elim (find-cons (λ z. z.id == k) d es e h) [
  | inl (t, q) ↦
      let here : d.id ≡ k = (==_iff d.id k).0 t in
      rw (t, remove_absent k es (rw (← here) u.0), q) refl
  | inr (t, rest) ↦ rw t (ground (arith, count-remove k es e j u.1 rest))
]
  where
    remove_absent :
        (k : ℕ) (es : List TournamentEntry)
        → find (λ z. z.id == k) es ≡ none
        → remove (λ z. z.id == k) es ≡ es
    remove_absent k [] h = refl
    remove_absent k (d ∷ es) h = ground (arith, remove_absent k es)
