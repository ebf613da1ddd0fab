-- ===== src/Tournament/Unregister.antt =====
-- `unregisterPlayer`.
use cardgames.Prelude.{
  max_ℤ, ℕ, Bool, true, false, not, Option, none, some, pos, ◌+ℤ◌, ◌-ℤ◌, ltb, ◌==◌, if◌then◌else◌,
}
use cardgames.Store.{
  Store, Wallet, Result, ok, err, ◌>>=◌, ◌>>◌, throw_if, or_throw, TransactionStatus,
  tournament_refund, tournament_return, tournament_exit, create_transaction, tournament_not_found,
  cannot_unregister, registration_not_found, find_wallet_of,
}
use cardgames.Wallet.Base.{set_balance}
use cardgames.Tournament.Defs.{
  Tournament, TournamentStatus, TournamentEntry, Hall, announced, registering, find_tournament,
  find_entry, remove, set_tournament, prize_pool,
}
use cardgames.Tournament.Register.{total_cost}

abbrev pub is_unregisterable : TournamentStatus → Bool
is_unregisterable announced = true
is_unregisterable registering = true
is_unregisterable _ = false

-- `!entry || !entry.isActive`, and the entry otherwise.
abbrev pub active_entry : Option TournamentEntry → Result TournamentEntry
active_entry none = err registration_not_found
active_entry (some e) = if e.is_active then ok e else err registration_not_found

-- The refund to the wallet that was found.
unfoldable pub refund : Wallet → Tournament → ℕ → ℕ → Store → Result (ℕ × Store)
refund w t now transaction_id s =
    let amount = pos (total_cost t.config) in
    do
      (row, created) ←
          create_transaction
            (record {
              id = transaction_id;
              wallet_id = w.id;
              type = tournament_refund;
              amount = amount;
              status = TransactionStatus.completed;
              description = tournament_return t.config.name;
              balance_before = some w.real_balance;
              balance_after = some (w.real_balance +ℤ amount);
              reference_id = some (tournament_exit t.id now);
              rejection_reason = none;
              processed_by_id = none;
              performed_by_id = none;
            })
            (set_balance w.id (λ b. b +ℤ amount) s)
      ok (row.id, created)

-- `if (totalRefund > 0)`, then `if (wallet)`; the number is not used.
unfoldable pub give_back : ℕ → Tournament → ℕ → ℕ → Store → Result (ℕ × Store)
unfolding refund
give_back user t now transaction_id s =
    let refunded : Result (ℕ × Store) = elim (find_wallet_of user s) [
      | none ↦ ok (0, s)
      | some w ↦ refund w t now transaction_id s
    ] in
    if ltb 0 (total_cost t.config) then refunded else ok (0, s)

abbrev pub count_out : Tournament → Tournament → Tournament
count_out read t = record t {
  total_entries = t.total_entries -ℤ pos 1;
  players_remaining = t.players_remaining -ℤ pos 1;
  actual_prize_pool = prize_pool read.config (max_ℤ (pos 0) (read.total_entries -ℤ pos 1));
}

-- What is read, and what is refused.
unfoldable pub may_leave : ℕ → ℕ → Hall → Result (Tournament × TournamentEntry)
may_leave user tournament_id h = do
  t ← or_throw (find_tournament tournament_id h) tournament_not_found
  throw_if (not (is_unregisterable t.status)) cannot_unregister
  entry ← active_entry (find_entry tournament_id user h)
  ok (t, entry)

-- The result is the entry that was deleted, which the source only reads the id of.
unfoldable pub unregister_player : ℕ → ℕ → ℕ → ℕ → Hall → Result (TournamentEntry × Hall)
unfolding may_leave give_back
unregister_player user tournament_id now transaction_id h = do
  (t, entry) ← may_leave user tournament_id h
  let left = record h { entries = remove (λ e. e.id == entry.id) h.entries }
  (row, refunded) ← give_back user t now transaction_id left.store
  ok (entry, set_tournament tournament_id (count_out t) (record left { store = refunded }))
