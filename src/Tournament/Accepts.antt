-- ===== src/Tournament/Accepts.antt =====
-- A registration that meets the conditions is accepted.
use cardgames.Prelude.{
  ◌≡◌, refl, ap, ◌∙◌, ◌⊎◌, inl, inr, ℕ, true, false, ◌+◌, ◌&&◌, ◌||◌, none, some, ◌∷◌, ℤ, pos, ◌+ℤ◌,
  ◌-ℤ◌, ◌≤ℤ◌, ◌<ℤ◌, int_laws, ltb, ltb_ℤ, ◌==◌, ==_refl, Bool-cases, arith,
}
use cardgames.Store.{
  Store, Wallet, ok, find_wallet_of, create_transaction, tournament_buy_in, tournament_entry,
}
use cardgames.Store.Outcome.{Returns, Returns-bind, Returns-next, Returns-ok}
use cardgames.Store.Table.{find, find-none_or, find-update_found, find-update_self}
use cardgames.Wallet.Ledger.{IsSound}
use cardgames.Wallet.Posting.{take_if_covered_lem}
use cardgames.Wallet.Effects.{IsNew, create_transaction-IsNew}
use cardgames.Tournament.Defs.{
  Tournament, TournamentEntry, Hall, registering, late_reg, create_entry, find_entry,
  find_tournament, set_tournament, prize_pool,
}
use cardgames.Tournament.Register.{
  total_cost, admit, charge, announce_entry, count_in, register_player,
}
use cardgames.Tournament.Admit.{IsAdmitted}
use cardgames.Tournament.Sound.{is_covered}

admit_done :
    (user tournament_id : ℕ) (h : Hall) (w : Wallet) (t : Tournament)
    → IsAdmitted user tournament_id h w t
    → admit user tournament_id h ≡ ok (w, t)
unfolding admit
admit_done user tournament_id h w t may =
    rw (may.own, may.found, may.opened, may.room, may.absent, may.enough) refl

-- The wallet with the cost of the entry taken.
abbrev pub paid_wallet : Wallet → Tournament → Wallet
paid_wallet w t = record w { real_balance = w.real_balance -ℤ pos (t.config.buy_in + t.config.fee) }

free_wallet :
    (w : Wallet) (t : Tournament) → ltb 0 (total_cost t.config) ≡ false → w ≡ paid_wallet w t
free_wallet w t free =
    let nothing : total_cost t.config ≡ 0 = ground arith in
    rw nothing (ap (λ b. record w { real_balance = b }) (same w.real_balance))
  where
    same : (b : ℤ) → b ≡ b -ℤ pos 0
    same b = omega int_laws

charge-Returns :
    (user : ℕ) (w : Wallet) (t : Tournament) (now transaction_id : ℕ) (s : Store)
    → IsSound s
    → find_wallet_of user s ≡ some w
    → (ltb 0 (total_cost t.config) && ltb_ℤ w.real_balance (pos (total_cost t.config))) ≡ false
    → IsNew transaction_id tournament_buy_in (some (tournament_entry t.id now)) s
    → Returns
        (λ r. find_wallet_of user r.1 ≡ some (paid_wallet w t))
        (charge w t now transaction_id s)
unfolding charge find_wallet_of
charge-Returns user w t now transaction_id s h e enough new =
    let Q : ℤ × Store → Type 0 = λ r. find_wallet_of user r.1 ≡ some (paid_wallet w t) in
    elim (Bool-cases (ltb 0 (total_cost t.config))) [
      | inr free ↦ rw free (Returns-ok Q _ (e ∙ ap some (free_wallet w t free)))
      | inl paid ↦
          rw
            (
              paid,
              take_if_covered_lem user w (pos (total_cost t.config)) s h e,
              is_covered (total_cost t.config) w.real_balance enough paid,
            )
            (Returns-bind Q (create_transaction _ _) _ _ (create_transaction-IsNew _ _ new) (
              Returns-ok Q _
                (find-update_found (λ v. v.id) _ _ s.wallets w h.unique_wallets (λ v. refl) e)))
    ]

create_entry_done :
    (new : TournamentEntry) (h : Hall)
    → find (λ e. e.id == new.id) h.entries ≡ none
    → find_entry new.tournament_id new.user_id h ≡ none
    → create_entry new h ≡ ok (new, record h { entries = new ∷ h.entries })
unfolding create_entry find_entry
create_entry_done new h fresh absent =
    rw
      (
        find-none_or (λ (e : TournamentEntry). e.id == new.id) _
            (λ e.
              e.id == new.id || e.tournament_id == new.tournament_id && e.user_id == new.user_id)
            h.entries (λ e. ground arith) fresh absent,
        create_entry,
      )
      refl

announce_entry-wallets :
    (user cost : ℕ) (balance : ℤ) (s : Store)
    → (announce_entry user cost balance s).wallets ≡ s.wallets
unfolding announce_entry
announce_entry-wallets user cost balance s = elim (Bool-cases (ltb 0 cost && s.redis_up)) [
  | inl told ↦ rw (announce_entry, told) refl
  | inr silent ↦ rw (announce_entry, silent) refl
]

-- A user who may register: the wallet covers the price and the fee, the tournament is open and has
-- no cap, a cap of 0 or fewer entries than its cap, and the user has no entry in it.
pub record MayEnter (user tournament_id : ℕ) (h : Hall) (w : Wallet) (t : Tournament) : Type 0 where
  pub own : find_wallet_of user h.store ≡ some w
  pub found : find_tournament tournament_id h ≡ some t
  pub opened : (t.status ≡ registering) ⊎ (t.status ≡ late_reg)
  pub room :
      (t.config.seat_cap ≡ none)
      ⊎ ((cap : ℕ) × (t.config.seat_cap ≡ some cap) × ((cap ≡ 0) ⊎ (t.total_entries <ℤ pos cap)))
  pub absent : find_entry tournament_id user h ≡ none
  pub enough : pos (t.config.buy_in + t.config.fee) ≤ℤ w.real_balance

admitted :
    (user tournament_id : ℕ) (h : Hall) (w : Wallet) (t : Tournament)
    → MayEnter user tournament_id h w t
    → IsAdmitted user tournament_id h w t
admitted user tournament_id h w t may = record {
  own = may.own;
  found = may.found;
  opened = elim may.opened [ inl e ↦ rw e refl | inr e ↦ rw e refl ];
  room = elim may.room [
    | inl e ↦ rw e refl
    | inr (cap, e, inl zero_cap) ↦ rw (e, zero_cap) refl
    | inr (cap, e, inr fewer) ↦ rw e (ground (arith, fewer))
  ];
  absent = rw may.absent refl;
  enough = ground (arith, may.enough);
}

-- The tournament with one entry and one player more, and the pool of the new number of entries.
abbrev pub entered_tournament : Tournament → Tournament
entered_tournament t = record t {
  total_entries = t.total_entries +ℤ pos 1;
  players_remaining = t.players_remaining +ℤ pos 1;
  actual_prize_pool = prize_pool t.config (t.total_entries +ℤ pos 1);
}

-- What a registration leaves behind.
abbrev pub IsRegistered : ℕ → ℕ → Wallet → Tournament → TournamentEntry × Hall → Type 0
IsRegistered user tournament_id w t (entry, after) =
    (entry.is_active ≡ true)
    × (find_entry tournament_id user after ≡ some entry)
    × (find_wallet_of user after.store ≡ some (paid_wallet w t))
    × (find_tournament tournament_id after ≡ some (entered_tournament t))

-- A registration is accepted where the user may register, the wallets and their ledger are sound, and
-- the new entry and ledger row have new ids and the row a new reference. Afterwards the user's entry
-- in the tournament is the new active one, the user's wallet has paid the price and the fee, and the
-- tournament has one entry and one player more and the pool of its new number of entries.
pub register_player-Returns :
    (user tournament_id now entry_id transaction_id : ℕ) (h : Hall) (w : Wallet) (t : Tournament)
    → IsSound h.store
    → MayEnter user tournament_id h w t
    → find (λ e. e.id == entry_id) h.entries ≡ none
    → IsNew transaction_id tournament_buy_in (some (tournament_entry t.id now)) h.store
    → Returns
        (IsRegistered user tournament_id w t)
        (register_player user tournament_id now entry_id transaction_id h)
unfolding register_player find_entry find_tournament set_tournament find
register_player-Returns user tournament_id now entry_id transaction_id h w t sound may fresh new =
    let Q : TournamentEntry × Hall → Type 0 = IsRegistered user tournament_id w t in
    let is_in = admitted user tournament_id h w t may in
    Returns-bind Q (admit user tournament_id h) _ (w, t) (admit_done user tournament_id h w t is_in)
      (Returns-next _ Q _ _
        (charge-Returns user w t now transaction_id h.store sound may.own is_in.enough new)
        λ paid settled.
          Returns-bind Q (create_entry _ _) _ _ (create_entry_done _ _ fresh may.absent) (
            Returns-ok Q _ (
              refl,
              rw (==_refl tournament_id, ==_refl user) refl,
              wallet_after paid.1 _ settled,
              find-update_self (λ z. z.id) tournament_id (count_in t) h.tournaments t (λ z. refl)
                  may.found,
            )))
  where
    wallet_after :
        (s : Store) (balance : ℤ)
        → find_wallet_of user s ≡ some (paid_wallet w t)
        → find_wallet_of user (announce_entry user (total_cost t.config) balance s)
          ≡ some (paid_wallet w t)
    wallet_after s balance e =
        unfold find_wallet_of in rw (announce_entry-wallets user (total_cost t.config) balance s) e
