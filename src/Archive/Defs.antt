-- ===== src/Archive/Defs.antt =====
-- `HandHistoryProcessor.process`. Chips are whole units of the currency, and the columns that hold
-- money are hundredths. A parameter is the floating-point `Math.floor(a * (b / c))`.
use cardgames.Prelude.{
  ℕ, ◌+◌, ◌*◌, Bool, true, false, ◌&&◌, Option, none, some, List, [], ◌∷◌, ◌++◌, ℤ, pos, ◌+ℤ◌, ◌-ℤ◌,
  length, ltb, ◌==◌, if◌then◌else◌,
}
use Prim.Native.String.{String}
use text.Mathlib.Text.{◌==◌ as same_text}
use cardgames.Store.{
  Store, Wallet, Transaction, Result, ok, err, ◌>>=◌, or_throw, missing_relation, rake, completed,
  rake_from, find_wallet_of, create_transaction,
}
use cardgames.Store.Table.{find, update}
use cardgames.Wallet.Base.{set_balance}
use cardgames.Users.Defs.{User, House, find_user}

pub record Winner : Type 0 where
  pub seat : ℕ
  pub amount : ℕ
  pub hand_description : Option String

pub record Participant : Type 0 where
  pub id : Option ℕ
  pub seat_number : ℕ
  pub total_contribution : ℕ
  pub hand_description : Option String
  pub cards : List String

pub record HandJob : Type 0 where
  pub hand_id : ℕ
  pub table_id : ℕ
  pub winners : List Winner
  pub pot : ℕ
  pub rake : ℕ
  pub community_cards : List String
  pub participants : List Participant
  pub action_log : List String
  pub timestamp : ℕ

pub record HandHistory : Type 0 where
  pub id : ℕ
  pub table_id : ℕ
  pub end_time : ℕ
  pub community_cards : List String
  pub pot : ℕ
  pub rake : ℕ
  pub action_log : List String

abbrev pub history_of : HandJob → HandHistory
history_of job = record {
  id = job.hand_id;
  table_id = job.table_id;
  end_time = job.timestamp * 1000;
  community_cards = job.community_cards;
  pot = job.pot;
  rake = job.rake;
  action_log = job.action_log;
}

pub record HandPlayerResult : Type 0 where
  pub hand_id : ℕ
  pub user_id : ℕ
  pub seat : ℕ
  pub win_amount : ℕ
  pub net_profit : ℤ
  pub hand_description : Option String
  pub cards : List String

pub record HandAudit : Type 0 where
  pub user_id : ℕ
  pub hand_id : ℕ
  pub table_id : ℕ
  pub pot : ℕ
  pub rake : ℕ
  pub winner_count : ℕ

-- The tables that the processor writes.
pub record Archive : Type 0 where
  pub house : House
  pub hands : List HandHistory
  pub results : List HandPlayerResult
  pub audits : List HandAudit

unfoldable pub find_hand : ℕ → Archive → Option HandHistory
find_hand id a = find (λ h. h.id == id) a.hands

-- `winners.find(...)`
abbrev pub winner_of : HandJob → Participant → Option Winner
winner_of job p = find (λ w. w.seat == p.seat_number) job.winners

abbrev pub amount_of : Option Winner → ℕ
amount_of none = 0
amount_of (some w) = w.amount

-- `a || b`, on texts that may be missing
abbrev pub or_other : Option String → Option String → Option String
or_other none other = other
or_other (some String.[]) other = other
or_other (some t) other = some t

abbrev pub description_of : Option Winner → Option String
description_of none = none
description_of (some w) = or_other w.hand_description none

abbrev pub result_of : HandJob → Participant → ℕ → HandPlayerResult
result_of job p id =
    let winner = winner_of job p in
    record {
      hand_id = job.hand_id;
      user_id = id;
      seat = p.seat_number;
      win_amount = amount_of winner;
      net_profit = pos (amount_of winner) -ℤ pos p.total_contribution;
      hand_description = or_other p.hand_description (description_of winner);
      cards = p.cards;
    }

abbrev pub rake_row : HandJob → ℕ → Wallet → Transaction
rake_row job new_id w = record {
  id = new_id;
  wallet_id = w.id;
  type = rake;
  amount = pos (job.rake * 100);
  status = completed;
  description = rake_from job.hand_id job.table_id;
  balance_before = none;
  balance_after = none;
  reference_id = none;
  rejection_reason = none;
  processed_by_id = none;
  performed_by_id = none;
}

-- The credit of the house with its ledger row. The row has no balances and no reference.
unfoldable pub credit_rake : HandJob → ℕ → Store → User → Result Store
credit_rake job new_id s treasury = do
  w ← or_throw (find_wallet_of treasury.id s) missing_relation
  (t, created) ←
      create_transaction (rake_row job new_id w)
        (set_balance w.id (λ b. b +ℤ pos (job.rake * 100)) s)
  ok created

abbrev pub find_treasury : House → Option User
find_treasury h = find (λ u. same_text u.username "HOUSE_TREASURY") h.users

unfoldable pub take_rake : HandJob → ℕ → House → Result House
unfolding credit_rake
take_rake job new_id h =
    let credited : Result House = elim (find_treasury h) [
      | none ↦ ok h
      | some u ↦ credit_rake job new_id h.store u >>= λ s. ok (record h { store = s })
    ] in
    if ltb 0 job.rake then credited else ok h

-- The user of the audit row: the first participant. The schema refuses the text that stands for
-- none.
abbrev pub audit_user : List Participant → Result ℕ
audit_user [] = err missing_relation
audit_user (p ∷ ps) = or_throw p.id missing_relation

-- A transaction that throws is rolled back, and the error thrown again.
abbrev pub try_archive : Archive → Result Archive → Archive × Bool
try_archive a (ok done) = (done, false)
try_archive a (err e) = (a, true)

module _ (floor_times_quotient : ℕ → ℕ → ℕ → ℕ) where
  -- The rake that a player's part of the pot accounts for.
  abbrev pub rake_share : HandJob → Participant → ℕ
  rake_share job p =
      if ltb 0 job.rake && ltb 0 job.pot && ltb 0 p.total_contribution
      then floor_times_quotient job.rake p.total_contribution job.pot
      else 0

  -- `updateData`
  abbrev pub with_hand : HandJob → Participant → User → User
  with_hand job p u =
      let win_amount = amount_of (winner_of job p) in
      record u {
        hands_played = u.hands_played + 1;
        hands_won = if ltb 0 win_amount then u.hands_won + 1 else u.hands_won;
        lifetime_earnings =
            if ltb 0 win_amount then u.lifetime_earnings + win_amount else u.lifetime_earnings;
        lifetime_rake =
            if ltb 0 (rake_share job p)
            then u.lifetime_rake + rake_share job p * 100
            else u.lifetime_rake;
      }

  -- `user.update`, which throws where there is no row.
  unfoldable pub count_hand : HandJob → Participant → ℕ → House → Result House
  count_hand job p id h = elim (find_user id h) [
    | none ↦ err missing_relation
    | some u ↦ ok (record h { users = update (λ v. v.id == id) (with_hand job p) h.users })
  ]

  -- The loop over the participants, with the rows for `createMany`. A participant without an id is
  -- not counted, and the database refuses its row.
  unfoldable pub count_participants :
      HandJob → List Participant → House → Result (List HandPlayerResult × House)
  unfolding count_hand
  count_participants job [] h = ok ([], h)
  count_participants job (p ∷ ps) h = elim (p.id) [
    | none ↦ err missing_relation
    | some id ↦ count_hand job p id h >>= λ counted.
        count_participants job ps counted >>= λ r. ok (result_of job p id ∷ r.0, r.1)
  ]

  -- The body of the `$transaction`.
  unfoldable pub archive_hand : HandJob → ℕ → Archive → Result Archive
  unfolding count_participants take_rake
  archive_hand job new_id a = do
    (rows, counted) ← count_participants job job.participants a.house
    credited ← take_rake job new_id counted
    user ← audit_user job.participants
    ok (record {
      house = credited;
      hands = history_of job ∷ a.hands;
      results = rows ++ a.results;
      audits =
          record {
            user_id = user;
            hand_id = job.hand_id;
            table_id = job.table_id;
            pot = job.pot;
            rake = job.rake;
            winner_count = length job.winners;
          }
          ∷ a.audits;
    })

  -- The archive after a job, and whether the job throws, so that the queue tries again.
  unfoldable pub process : String → HandJob → ℕ → Archive → Archive × Bool
  process name job new_id a =
      let archived : Archive × Bool = elim (find_hand job.hand_id a) [
        | some h ↦ (a, false)
        | none ↦ try_archive a (archive_hand job new_id a)
      ] in
      if same_text name "archive-hand" then archived else (a, false)
