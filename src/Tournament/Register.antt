-- ===== src/Tournament/Register.antt =====
-- `registerPlayer`.
use cardgames.Prelude.{
  ℕ, ◌+◌, Bool, true, false, not, Option, none, some, ◌∷◌, ℤ, pos, ◌+ℤ◌, ◌-ℤ◌, neg, ltb, leb_ℤ,
  ltb_ℤ, ◌==◌, ◌&&◌, if◌then◌else◌,
}
use cardgames.Store.{
  Store, Wallet, Result, ok, ◌>>=◌, ◌>>◌, throw_if, or_throw, TransactionStatus, tournament_buy_in,
  tournament_cost, tournament_entry, create_transaction, tournament_not_found,
  not_open_for_registration, tournament_is_full, already_registered, insufficient_funds,
  race_detected,
}
use cardgames.Wallet.Base.{take_if_covered, get_wallet_or_throw}
use cardgames.Tournament.Defs.{
  Config, Tournament, TournamentStatus, TournamentEntry, Hall, registering, late_reg,
  find_tournament, find_entry, create_entry, set_tournament, prize_pool,
}

abbrev pub is_registrable : TournamentStatus → Bool
is_registrable registering = true
is_registrable late_reg = true
is_registrable _ = false

-- `tournament.seatCap && tournament.totalEntries >= tournament.seatCap`: a cap of 0 is no cap.
abbrev pub is_full : Option ℕ → ℤ → Bool
is_full none entries = false
is_full (some cap) entries = not (cap == 0) && leb_ℤ (pos cap) entries

-- `existingEntry && existingEntry.isActive`
abbrev pub is_entered : Option TournamentEntry → Bool
is_entered none = false
is_entered (some e) = e.is_active

abbrev pub total_cost : Config → ℕ
total_cost c = c.buy_in + c.fee

-- Step 7: the deduction, and its ledger row; nothing for a freeroll.
unfoldable pub charge : Wallet → Tournament → ℕ → ℕ → Store → Result (ℤ × Store)
charge w t now transaction_id s =
    let cost = pos (total_cost t.config) in
    let balance_after = w.real_balance -ℤ cost in
    let (count, wallets) = take_if_covered w.id cost s in
    let paid : Result (ℤ × Store) = do
      throw_if (count == 0) race_detected
      (row, created) ←
          create_transaction
            (record {
              id = transaction_id;
              wallet_id = w.id;
              type = tournament_buy_in;
              amount = neg cost;
              status = TransactionStatus.completed;
              description = tournament_cost t.config.name t.config.buy_in t.config.fee;
              balance_before = some w.real_balance;
              balance_after = some balance_after;
              reference_id = some (tournament_entry t.id now);
              rejection_reason = none;
              processed_by_id = none;
              performed_by_id = none;
            })
            (record s { wallets = wallets })
      ok (balance_after, created)
    in if ltb 0 (total_cost t.config) then paid else ok (w.real_balance, s)

-- Step 10: the balance alert, where something was paid; a failure to publish is caught.
unfoldable pub announce_entry : ℕ → ℕ → ℤ → Store → Store
announce_entry user cost balance_after s =
    if ltb 0 cost && s.redis_up
    then record s {
      alerts =
          record {
            user_id = user;
            new_balance = balance_after;
            delta = neg (pos cost);
            transaction_type = tournament_buy_in;
          }
          ∷ s.alerts;
    }
    else s

-- Step 9: the counters and the pool, from the row as it was read.
abbrev pub count_in : Tournament → Tournament → Tournament
count_in read t = record t {
  total_entries = t.total_entries +ℤ pos 1;
  players_remaining = t.players_remaining +ℤ pos 1;
  actual_prize_pool = prize_pool read.config (read.total_entries +ℤ pos 1);
}

-- Steps 1 to 6: what is read, and what is refused.
unfoldable pub admit : ℕ → ℕ → Hall → Result (Wallet × Tournament)
unfolding get_wallet_or_throw
admit user tournament_id h = do
  w ← get_wallet_or_throw user h.store
  t ← or_throw (find_tournament tournament_id h) tournament_not_found
  throw_if (not (is_registrable t.status)) not_open_for_registration
  throw_if (is_full t.config.seat_cap t.total_entries) tournament_is_full
  throw_if (is_entered (find_entry tournament_id user h)) already_registered
  throw_if (ltb 0 (total_cost t.config) && ltb_ℤ w.real_balance (pos (total_cost t.config)))
      insufficient_funds
  ok (w, t)

unfoldable pub register_player : ℕ → ℕ → ℕ → ℕ → ℕ → Hall → Result (TournamentEntry × Hall)
unfolding admit charge announce_entry
register_player user tournament_id now entry_id transaction_id h = do
  (w, t) ← admit user tournament_id h
  (balance_after, paid) ← charge w t now transaction_id h.store
  (entry, entered) ←
      create_entry
        (record {
          id = entry_id;
          created_at = now;
          tournament_id = tournament_id;
          user_id = user;
          is_active = true;
          rebuys_used = 0;
          addons_used = 0;
          re_entries_used = 0;
          finish_position = none;
          prize_won = none;
        })
        (record h { store = paid })
  let counted = set_tournament tournament_id (count_in t) entered
  ok (
    entry,
    record counted {
      store = announce_entry user (total_cost t.config) balance_after counted.store;
    },
  )
