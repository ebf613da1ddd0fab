-- ===== src/Lifecycle/Rule.antt =====
-- A rule changes each tournament as a function of that tournament alone.
use cardgames.Prelude.{
  ℕ, ◌≡◌, refl, sym, ◌∙◌, ap, subst, inl, inr, Bool, false, Option, none, some, List, [], ◌∷◌,
  arith, ◌==◌, ==_iff, ==_refl, if◌then◌else◌, Bool-cases, Option-cases,
}
use cardgames.Store.Table.{
  find, update, UniqueKeys, UniqueKeys-update, find-cons, find-update_self, find-update_ne,
}
use cardgames.Tournament.Defs.{
  Tournament, TournamentStatus, Hall, find_tournament, set_tournament, same_status,
}
use cardgames.Tournament.Admin.{transition_status, set_status}
use cardgames.Tournament.Status.{set_status-id}
use cardgames.Lifecycle.Defs.{select, attempt, for_each, rule}

abbrev pub UniqueTournaments : Hall → Type 0
UniqueTournaments h = UniqueKeys (λ (t : Tournament). t.id) h.tournaments

-- What a transition does to a row that is there.
abbrev pub with_status : Option TournamentStatus → ℕ → Tournament → Tournament
with_status none now t = t
with_status (some s) now t = if same_status t.status s then t else set_status s now t

-- The row of a tournament after a transition of the row j.
abbrev changed : ℕ → ℕ → Option TournamentStatus → ℕ → Option Tournament → Option Tournament
changed now j s k none = none
changed now j s k (some t) = some (if j == k then with_status s now t else t)

changed_other :
    (now j : ℕ) (s : Option TournamentStatus) (k : ℕ) (o : Option Tournament)
    → (j == k) ≡ false
    → changed now j s k o ≡ o
changed_other now j s k none e = refl
changed_other now j s k (some t) e = rw e refl

changed_nothing : (now j k : ℕ) (o : Option Tournament) → changed now j none k o ≡ o
changed_nothing now j k none = refl
changed_nothing now j k (some t) = ground arith

attempt-UniqueTournaments :
    (now j : ℕ) (s : Option TournamentStatus) (h : Hall)
    → UniqueTournaments h
    → UniqueTournaments (attempt now j s h)
unfolding attempt transition_status set_tournament
attempt-UniqueTournaments now j none h u = u
attempt-UniqueTournaments now j (some s) h u = elim (Option-cases (find_tournament j h)) [
  | inl e ↦ rw e u
  | inr (t, e) ↦ elim (Bool-cases (same_status t.status s)) [
    | inl same ↦ rw (e, same) u
    | inr other ↦ elim (Bool-cases h.store.redis_up) [
      | inl up ↦
          rw (e, other, up)
            (UniqueKeys-update (λ t. t.id) j _ h.tournaments (set_status-id s now) u)
      | inr down ↦
          rw (e, other, down)
            (UniqueKeys-update (λ t. t.id) j _ h.tournaments (set_status-id s now) u)
    ]
  ]
]

attempt-find_own :
    (now k : ℕ) (s : TournamentStatus) (h : Hall)
    → find_tournament k (attempt now k (some s) h) ≡ changed now k (some s) k (find_tournament k h)
unfolding attempt transition_status set_tournament find_tournament
attempt-find_own now k s h = elim (Option-cases (find_tournament k h)) [
  | inl e ↦ rw e e
  | inr (t, e) ↦ elim (Bool-cases (same_status t.status s)) [
    | inl same ↦ rw (e, same, ==_refl k) e
    | inr other ↦ elim (Bool-cases h.store.redis_up) [
      | inl up ↦ rw (e, other, up, ==_refl k) (written t e)
      | inr down ↦ rw (e, other, down, ==_refl k) (written t e)
    ]
  ]
]
  where
    written :
        (t : Tournament)
        → find_tournament k h ≡ some t
        → find_tournament k
            (record h { tournaments = update (λ t. t.id == k) (set_status s now) h.tournaments })
          ≡ some (set_status s now t)
    written t e =
        unfold find_tournament in
        find-update_self (λ t. t.id) k _ h.tournaments t (set_status-id s now) e

attempt-find_other :
    (now j : ℕ) (s : Option TournamentStatus) (h : Hall) (k : ℕ)
    → (j == k) ≡ false
    → find_tournament k (attempt now j s h) ≡ find_tournament k h
unfolding attempt transition_status set_tournament find_tournament
attempt-find_other now j none h k ne = refl
attempt-find_other now j (some s) h k ne = elim (Option-cases (find_tournament j h)) [
  | inl e ↦ rw e refl
  | inr (t, e) ↦ elim (Bool-cases (same_status t.status s)) [
    | inl same ↦ rw (e, same) refl
    | inr other ↦ elim (Bool-cases h.store.redis_up) [
      | inl up ↦ rw (e, other, up) kept
      | inr down ↦ rw (e, other, down) kept
    ]
  ]
]
  where
    kept :
        find_tournament k
          (record h { tournaments = update (λ t. t.id == j) (set_status s now) h.tournaments })
        ≡ find_tournament k h
    kept =
        unfold find_tournament in
        find-update_ne (λ t. t.id) j k _ h.tournaments (set_status-id s now) (λ q. ground arith)

attempt-find :
    (now j : ℕ) (s : Option TournamentStatus) (h : Hall) (k : ℕ)
    → find_tournament k (attempt now j s h) ≡ changed now j s k (find_tournament k h)
attempt-find now j none h k = unfold attempt in sym (changed_nothing now j k (find_tournament k h))
attempt-find now j (some s) h k = elim (Bool-cases (j == k)) [
  | inl e ↦
      let same : j ≡ k = (==_iff j k).0 e in
      subst
        (λ i.
          find_tournament i (attempt now j (some s) h)
          ≡ changed now j (some s) i (find_tournament i h))
        same (attempt-find_own now j s h)
  | inr e ↦ attempt-find_other now j (some s) h k e ∙ sym (changed_other now j (some s) k _ e)
]

module _ (p : Tournament → Bool) where
  select_absent :
      (ts : List Tournament) (k : ℕ)
      → find (λ t. t.id == k) ts ≡ none
      → find (λ t. t.id == k) (select p ts) ≡ none
  unfolding select find
  select_absent [] k e = refl
  select_absent (t ∷ ts) k e = ground (arith, select_absent ts k)

  select-UniqueKeys :
      (ts : List Tournament)
      → UniqueKeys (λ (t : Tournament). t.id) ts
      → UniqueKeys (λ (t : Tournament). t.id) (select p ts)
  unfolding select
  select-UniqueKeys [] u = tt
  select-UniqueKeys (t ∷ ts) u = elim (Bool-cases (p t)) [
    | inl e ↦ rw e (select_absent ts t.id u.0, select-UniqueKeys ts u.1)
    | inr e ↦ rw e (select-UniqueKeys ts u.1)
  ]

  select_found :
      (ts : List Tournament) (k : ℕ) (t : Tournament)
      → UniqueKeys (λ (t : Tournament). t.id) ts
      → find (λ t. t.id == k) ts ≡ some t
      → find (λ t. t.id == k) (select p ts) ≡ (if p t then some t else none)
  unfolding select find
  select_found [] k t u e = cc
  select_found (r ∷ ts) k t u e = elim (find-cons (λ t. t.id == k) r ts t e) [
    | inl (here, same) ↦
        let key : r.id ≡ k = (==_iff r.id k).0 here in
        let gone : find (λ t. t.id == k) (select p ts) ≡ none =
          select_absent ts k (rw (← key) u.0) in
        subst (λ z. find (λ t. t.id == k) (select p (r ∷ ts)) ≡ (if p z then some z else none)) same
          (elim (Bool-cases (p r)) [ inl yes_p ↦ rw (yes_p, here) refl | inr no_p ↦ rw no_p gone ])
    | inr (not_here, rest) ↦ elim (Bool-cases (p r)) [
      | inl yes_p ↦ rw (yes_p, not_here) (select_found ts k t u.1 rest)
      | inr no_p ↦ rw no_p (select_found ts k t u.1 rest)
    ]
  ]

module _ (now : ℕ) (target : Tournament → Option TournamentStatus) where
  for_each-UniqueTournaments :
      (ts : List Tournament) (h : Hall)
      → UniqueTournaments h
      → UniqueTournaments (for_each now target ts h)
  unfolding for_each
  for_each-UniqueTournaments [] h u = u
  for_each-UniqueTournaments (t ∷ ts) h u =
      for_each-UniqueTournaments ts _ (attempt-UniqueTournaments now t.id (target t) h u)

  for_each_absent :
      (ts : List Tournament) (h : Hall) (k : ℕ)
      → find (λ t. t.id == k) ts ≡ none
      → find_tournament k (for_each now target ts h) ≡ find_tournament k h
  unfolding for_each find
  for_each_absent [] h k e = refl
  for_each_absent (t ∷ ts) h k e = elim (Bool-cases (t.id == k)) [
    | inl here ↦ cc (rw here at e)
    | inr not_here ↦
        for_each_absent ts (attempt now t.id (target t) h) k (rw not_here at e)
        ∙ attempt-find_other now t.id (target t) h k not_here
  ]

  -- The loop over rows with different ids changes a row once, by what its own iteration asks for.
  for_each_found :
      (ts : List Tournament) (h : Hall) (k : ℕ) (t : Tournament)
      → UniqueTournaments (record h { tournaments = ts })
      → find (λ t. t.id == k) ts ≡ some t
      → find_tournament k h ≡ some t
      → find_tournament k (for_each now target ts h) ≡ some (with_status (target t) now t)
  unfolding for_each find
  for_each_found [] h k t u e found = cc
  for_each_found (r ∷ ts) h k t u e found = elim (find-cons (λ t. t.id == k) r ts t e) [
    | inl (here, same) ↦
        let key : r.id ≡ k = (==_iff r.id k).0 here in
        for_each_absent ts (attempt now r.id (target r) h) k (rw (← key) u.0)
        ∙ attempt-find now r.id (target r) h k
        ∙ rw (found, here) (ap (λ z. some (with_status (target z) now t)) same)
    | inr (not_here, rest) ↦
        for_each_found ts (attempt now r.id (target r) h) k t u.1 rest
          (attempt-find_other now r.id (target r) h k not_here ∙ found)
  ]

  pub rule-UniqueTournaments :
      (p : Tournament → Bool) (h : Hall)
      → UniqueTournaments h
      → UniqueTournaments (rule now p target h)
  unfolding rule
  rule-UniqueTournaments p h u = for_each-UniqueTournaments (select p h.tournaments) h u

  -- After a rule, a tournament has the status that the rule asks for, if the query finds it.
  pub rule_lem :
      (p : Tournament → Bool) (h : Hall) (k : ℕ) (t : Tournament)
      → UniqueTournaments h
      → find_tournament k h ≡ some t
      → find_tournament k (rule now p target h)
        ≡ some (if p t then with_status (target t) now t else t)
  unfolding rule find_tournament
  rule_lem p h k t u found = elim (Bool-cases (p t)) [
    | inl e ↦ rw e (
        for_each_found (select p h.tournaments) h k t (select-UniqueKeys p h.tournaments u)
          (select_found p h.tournaments k t u found ∙ rw e refl) found)
    | inr e ↦ rw e (
        for_each_absent (select p h.tournaments) h k
          (select_found p h.tournaments k t u found ∙ rw e refl)
        ∙ found)
  ]
