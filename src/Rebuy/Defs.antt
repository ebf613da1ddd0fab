-- ===== src/Rebuy/Defs.antt =====
-- `rebuy`. The script `add_chips_vault` is a parameter, a function of the tables of Redis that answers
-- or throws; so is the seat of the player's session, where the gateway knows one.
use cardgames.Prelude.{
  ℕ, Bool, true, false, ◌&&◌, Option, none, some, List, [], ◌∷◌, ◌+◌, ℤ, leb, if◌then◌else◌, ◌⊎◌,
  inl, inr,
}
use Prim.Native.String.{String}
use cardgames.Store.{Store, Error, ok, err}
use cardgames.Wallet.Requests.{lock_funds}
use cardgames.Wallet.CashOut.{settle_cash_out}

pub data PlayerStatus : Type 0 where
  active waiting other_status : PlayerStatus

-- `response.tableState`: whether the phase is waiting, where a missing phase counts so, and the
-- statuses of the players.
pub record TableState : Type 0 where
  pub is_waiting : Bool
  pub statuses : List PlayerStatus

-- What the script answers, where it does not throw.
pub data Reply : Type 0 where
  thrown rejected : Reply
  accepted : Option TableState → Reply

pub data RebuyError : Type 0 where
  session_not_found script_failed rejected_by_table : RebuyError
  lock_failed : Error → RebuyError

pub data RebuyEffect : Type 0 where
  broadcast : TableState → RebuyEffect
  start_new_hand : RebuyEffect

-- The wallets, the tables of Redis, what is sent and planned, and how the call ends.
pub record RebuyRun (T : Type 0) : Type 0 where
  pub store : Store
  pub tables : T
  pub effects : List RebuyEffect
  pub outcome : RebuyError ⊎ Option TableState

abbrev pub is_eligible : PlayerStatus → Bool
is_eligible other_status = false
is_eligible _ = true

unfoldable pub eligible : List PlayerStatus → ℕ
eligible [] = 0
eligible (s ∷ ss) = if is_eligible s then 1 + eligible ss else eligible ss

-- The broadcast, and the hand that starts where the table waits and two players can play.
abbrev pub effects_of : Option TableState → List RebuyEffect
effects_of none = []
effects_of (some st) =
    broadcast st
    ∷ (if st.is_waiting && leb 2 (eligible st.statuses) then start_new_hand ∷ [] else [])

module _ {T : Type 0} (add_chips_vault : ℕ → ℕ → ℤ → T → Reply × T) where
  -- What follows the answer of the script.
  abbrev pub after_reply : ℕ → ℤ → ℕ → String → ℕ → Store → Reply × T → RebuyRun T
  after_reply user amount table_id table_text refund_id paid (thrown, t) = record {
    store = paid;
    tables = t;
    effects = [];
    outcome = inl script_failed;
  }
  after_reply user amount table_id table_text refund_id paid (rejected, t) = record {
    store = settle_cash_out user amount table_id table_text none refund_id paid;
    tables = t;
    effects = [];
    outcome = inl rejected_by_table;
  }
  after_reply user amount table_id table_text refund_id paid (accepted st, t) = record {
    store = paid;
    tables = t;
    effects = effects_of st;
    outcome = inr st;
  }

  -- The last arguments but two are the moment and the ids of the rows of the payment and of its refund.
  unfoldable pub rebuy : Option ℕ → ℕ → ℕ → String → ℤ → ℕ → ℕ → ℕ → Store → T → RebuyRun T
  rebuy session user table_id table_text amount now new_id refund_id s t = elim session [
    | none ↦ record { store = s; tables = t; effects = []; outcome = inl session_not_found }
    | some seat ↦ elim (lock_funds user amount table_id table_text now new_id s) [
      | err e ↦ record { store = s; tables = t; effects = []; outcome = inl (lock_failed e) }
      | ok (row, paid) ↦
          after_reply user amount table_id table_text refund_id paid
            (add_chips_vault table_id seat amount t)
    ]
  ]
