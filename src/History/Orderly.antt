-- ===== src/History/Orderly.antt =====
-- The invariants of the two services hold together along any sequence of calls.
use cardgames.Prelude.{
  ℕ, ◌≡◌, inl, inr, Bool, true, false, Option, none, some, List, [], ◌∷◌, arith, if◌then◌else◌,
  Bool-cases, Option-cases,
}
use Prim.Native.String.{String}
use text.Mathlib.Text.{◌==◌ as same_text}
use cardgames.Store.{Store}
use cardgames.Store.Table.{UniqueKeys-update, All-update, All-find}
use cardgames.Wallet.Ledger.{IsSound}
use cardgames.Wallet.Sound.{
  create_deposit_request-IsSound, create_withdrawal_request-IsSound, lock_funds-IsSound,
  admin_adjust_balance-IsSound, settle_cash_out-IsSound,
}
use cardgames.Wallet.Process.{admin_process_transaction-IsSound}
use cardgames.Tournament.Defs.{
  Hall, StateChange, Tournament, TournamentEntry, TournamentStatus, find_tournament, set_tournament,
  same_status,
}
use cardgames.Tournament.Admin.{transition_status, set_status}
use cardgames.Tournament.Status.{set_status-id}
use cardgames.Tournament.Sound.{register_player-IsSound, unregister_player-IsSound}
use cardgames.Tournament.Tally.{IsTallied, IsCounted, register_player-IsTallied}
use cardgames.Tournament.Leave.{unregister_player-IsTallied}
use cardgames.Lifecycle.Defs.{
  attempt, select, for_each, rule, process_tick, opens, starts, is_late, to_registering, to_play,
  close_late,
}
use cardgames.Settlement.Credits.{process-IsSound}
use cardgames.History.Defs.{
  Call, ask_deposit, ask_withdrawal, lock, settle, adjust, decide, enter, leave, transition, tick,
  work, perform, May, Reaches, here, next,
}

-- Every balance is the sum of its ledger, and every counter of entries is the number of entries.
pub record IsOrderly (h : Hall) : Type 0 where
  pub books : IsSound h.store
  pub counters : IsTallied h

with_store-IsOrderly :
    (h : Hall) (s : Store) → IsOrderly h → IsSound s → IsOrderly (record h { store = s })
with_store-IsOrderly h s o sound = record {
  books = sound;
  counters = record {
    unique_tournaments = o.counters.unique_tournaments;
    unique_entries = o.counters.unique_entries;
    counted = o.counters.counted;
  };
}

with_changes-IsOrderly :
    (h : Hall) (cs : List StateChange) → IsOrderly h → IsOrderly (record h { changes = cs })
with_changes-IsOrderly h cs o = record {
  books = o.books;
  counters = record {
    unique_tournaments = o.counters.unique_tournaments;
    unique_entries = o.counters.unique_entries;
    counted = o.counters.counted;
  };
}

either-IsOrderly :
    (b : Bool) (g h : Hall) → IsOrderly g → IsOrderly h → IsOrderly (if b then g else h)
either-IsOrderly true g h o p = o
either-IsOrderly false g h o p = p

set_status-IsCounted :
    (es : List TournamentEntry) (s : TournamentStatus) (now : ℕ) (t : Tournament)
    → IsCounted es t
    → IsCounted es (set_status s now t)
set_status-IsCounted es s now t c = ground arith

set_tournament-IsOrderly :
    (k : ℕ) (s : TournamentStatus) (now : ℕ) (h : Hall) (t : Tournament)
    → find_tournament k h ≡ some t
    → IsOrderly h
    → IsOrderly (set_tournament k (set_status s now) h)
unfolding set_tournament find_tournament
set_tournament-IsOrderly k s now h t found o = record {
  books = o.books;
  counters = record {
    unique_tournaments =
        UniqueKeys-update (λ t. t.id) k _ h.tournaments (set_status-id s now)
          o.counters.unique_tournaments;
    unique_entries = o.counters.unique_entries;
    counted =
        All-update (IsCounted h.entries) (IsCounted h.entries) (λ t. t.id) k _ h.tournaments t
          o.counters.unique_tournaments found
          (set_status-IsCounted h.entries s now t
            (All-find (IsCounted h.entries) _ h.tournaments t o.counters.counted found))
          (λ y ne c. c) o.counters.counted;
  };
}

attempt-IsOrderly :
    (now k : ℕ) (s : Option TournamentStatus) (h : Hall)
    → IsOrderly h
    → IsOrderly (attempt now k s h)
unfolding attempt transition_status
attempt-IsOrderly now k none h o = o
attempt-IsOrderly now k (some s) h o = elim (Option-cases (find_tournament k h)) [
  | inl e ↦ rw e o
  | inr (t, e) ↦
      let written = set_tournament-IsOrderly k s now h t e o in
      elim (Bool-cases (same_status t.status s)) [
        | inl same ↦ rw (e, same) o
        | inr other ↦
            rw (e, other)
              (either-IsOrderly h.store.redis_up _ _ (with_changes-IsOrderly _ _ written) written)
      ]
]

module _ (now : ℕ) (target : Tournament → Option TournamentStatus) where
  for_each-IsOrderly :
      (ts : List Tournament) (h : Hall) → IsOrderly h → IsOrderly (for_each now target ts h)
  unfolding for_each
  for_each-IsOrderly [] h o = o
  for_each-IsOrderly (t ∷ ts) h o =
      for_each-IsOrderly ts _ (attempt-IsOrderly now t.id (target t) h o)

  rule-IsOrderly :
      (p : Tournament → Bool) (h : Hall) → IsOrderly h → IsOrderly (rule now p target h)
  unfolding rule
  rule-IsOrderly p h o = for_each-IsOrderly (select p h.tournaments) h o

tick-IsOrderly :
    (job_name : String) (now : ℕ) (h : Hall) → IsOrderly h → IsOrderly (process_tick job_name now h)
unfolding process_tick
tick-IsOrderly job_name now h o =
    elim (Bool-cases (same_text job_name "tournament-lifecycle-tick")) [
      | inl e ↦ rw e (
          rule-IsOrderly now (close_late now) is_late _ (
            rule-IsOrderly now to_play (starts now) _
              (rule-IsOrderly now to_registering (opens now) h o)))
      | inr e ↦ rw e o
    ]

-- Every call keeps both invariants, decisions on withdrawals aside.
perform-IsOrderly : (c : Call) (h : Hall) → May c h → IsOrderly h → IsOrderly (perform c h)
unfolding perform
perform-IsOrderly (ask_deposit user amount method id) h m o =
    with_store-IsOrderly h _ o
      (create_deposit_request-IsSound user amount method id h.store o.books)
perform-IsOrderly (ask_withdrawal user amount comment bank id) h m o =
    with_store-IsOrderly h _ o
      (create_withdrawal_request-IsSound user amount comment bank id h.store o.books)
perform-IsOrderly (lock user amount table text now id) h m o =
    with_store-IsOrderly h _ o (lock_funds-IsSound user amount table text now id h.store o.books)
perform-IsOrderly (settle user amount table text reference id) h m o =
    with_store-IsOrderly h _ o
      (settle_cash_out-IsSound user amount table text reference id h.store o.books)
perform-IsOrderly (adjust user amount reason kind admin id) h m o =
    with_store-IsOrderly h _ o
      (admin_adjust_balance-IsSound user amount reason kind admin id h.store o.books)
perform-IsOrderly (decide k status final reason admin) h m o =
    with_store-IsOrderly h _ o
      (admin_process_transaction-IsSound k status final reason admin h.store o.books m)
perform-IsOrderly (enter user tournament now entry id) h m o = record {
  books = register_player-IsSound user tournament now entry id h o.books;
  counters = register_player-IsTallied user tournament now entry id h o.counters;
}
perform-IsOrderly (leave user tournament now id) h m o = record {
  books = unregister_player-IsSound user tournament now id h o.books;
  counters = unregister_player-IsTallied user tournament now id h o.counters;
}
perform-IsOrderly (transition tournament status now) h m o =
    unfold attempt in attempt-IsOrderly now tournament (some status) h o
perform-IsOrderly (tick job_name now) h m o = tick-IsOrderly job_name now h o
perform-IsOrderly (work job id) h m o =
    with_store-IsOrderly h _ o (process-IsSound job id h.store o.books)

-- Along any sequence of calls of the wallet and tournament services - deposit and withdrawal
-- requests, buy-ins, cash-outs, adjustments, decisions, registrations, withdrawals from
-- tournaments, transitions, lifecycle jobs and cash-out jobs, refused ones included - every balance
-- stays the sum of its ledger and every tournament's counter of entries the number of its entries,
-- with unique ids, where they are so at the start and each decision on a ledger row is on a
-- deposit, or on a withdrawal that it neither rejects nor completes with another amount.
pub Reaches-IsOrderly : {g h : Hall} → IsOrderly g → Reaches g h → IsOrderly h
Reaches-IsOrderly o here = o
Reaches-IsOrderly o (next {h = h} r c m) = perform-IsOrderly c h m (Reaches-IsOrderly o r)
