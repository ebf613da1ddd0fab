-- ===== src/History/Defs.antt =====
-- The calls, with the arguments that the caller gives and the ids and moments that the database and
-- the clock give; the hall after a call, which is the old one if the call threw; and the halls that
-- calls lead to.
use cardgames.Prelude.{ℕ, ◌≡◌, Option, some, ℤ}
use Prim.Native.String.{String}
use cardgames.Store.{Store, Reference, Transaction, TransactionStatus, commit, find_transaction}
use cardgames.Wallet.Requests.{create_deposit_request, create_withdrawal_request, lock_funds}
use cardgames.Wallet.Admin.{admin_adjust_balance, admin_process_transaction}
use cardgames.Wallet.CashOut.{settle_cash_out}
use cardgames.Wallet.Process.{Settles}
use cardgames.Tournament.Defs.{Hall, TournamentStatus, commit_hall}
use cardgames.Tournament.Register.{register_player}
use cardgames.Tournament.Unregister.{unregister_player}
use cardgames.Tournament.Admin.{transition_status}
use cardgames.Lifecycle.Defs.{process_tick}
use cardgames.Settlement.Defs.{CashOutJob, process_cash_out}

-- A call of a service.
pub data Call : Type 0 where
  ask_deposit : ℕ → Option ℤ → Option String → ℕ → Call
  ask_withdrawal : ℕ → ℤ → Option String → Option String → ℕ → Call
  lock : ℕ → ℤ → ℕ → String → ℕ → ℕ → Call
  settle : ℕ → ℤ → ℕ → String → Option Reference → ℕ → Call
  adjust : ℕ → ℤ → String → String → ℕ → ℕ → Call
  decide : ℕ → TransactionStatus → Option ℤ → Option String → Option ℕ → Call
  enter : ℕ → ℕ → ℕ → ℕ → ℕ → Call
  leave : ℕ → ℕ → ℕ → ℕ → Call
  transition : ℕ → TournamentStatus → ℕ → Call
  tick : String → ℕ → Call
  work : CashOutJob → ℕ → Call

abbrev with_store : Hall → Store → Hall
with_store h s = record h { store = s }

unfoldable pub perform : Call → Hall → Hall
perform (ask_deposit user amount method id) h =
    with_store h (commit h.store (create_deposit_request user amount method id h.store))
perform (ask_withdrawal user amount comment bank id) h =
    with_store h (commit h.store (create_withdrawal_request user amount comment bank id h.store))
perform (lock user amount table text now id) h =
    with_store h (commit h.store (lock_funds user amount table text now id h.store))
perform (settle user amount table text reference id) h =
    with_store h (settle_cash_out user amount table text reference id h.store)
perform (adjust user amount reason kind admin id) h =
    with_store h (commit h.store (admin_adjust_balance user amount reason kind admin id h.store))
perform (decide k status final reason admin) h =
    with_store h (commit h.store (admin_process_transaction k status final reason admin h.store))
perform (enter user tournament now entry id) h =
    commit_hall h (register_player user tournament now entry id h)
perform (leave user tournament now id) h =
    commit_hall h (unregister_player user tournament now id h)
perform (transition tournament status now) h =
    commit_hall h (transition_status tournament status now h)
perform (tick job_name now) h = process_tick job_name now h
perform (work job id) h = with_store h (process_cash_out job id h.store)

-- A decision on a ledger row is one that the code settles as the ledger says.
abbrev pub May : Call → Hall → Type 0
May (decide k status final reason admin) h =
    (t : Transaction) → find_transaction k h.store ≡ some t → Settles t.type status final
May _ h = Unit

-- The halls that a sequence of calls leads to.
pub data Reaches (g : Hall) : Hall → Type 0 where
  here : Reaches g g
  next : {h : Hall} → Reaches g h → (c : Call) → May c h → Reaches g (perform c h)
