-- ===== src/Settlement/Tests.antt =====
-- The theorems on the settlements at two tables, three seats and one wallet.
use cardgames.Prelude.{
  ℕ, length, leb, ◌≡◌, refl, Bool, true, false, none, some, List, [], ◌∷◌, arith, Option, pos, ◌+ℤ◌,
  ◌==◌, if◌then◌else◌,
}
use cardgames.Store.{
  Wallet, Store, deposit, TransactionStatus, deposit_via, session, find_wallet_of,
}
use cardgames.Store.Table.{find}
use cardgames.Wallet.Ledger.{IsSound, ledger_total}
use Prim.Native.String.{String}
use cardgames.Settlement.Defs.{TableId, CashOutJob, run_jobs}
use cardgames.Settlement.Credits.{AllBelow, NoShield, owed, credited, run_jobs-credits}
use cardgames.Settlement.Cleanup.{
  PlayerData, Field, SnapshotPlayer, CleanupResult, cleanup_stale_tables,
}
use cardgames.Settlement.Reaper.{World, Room, sweep}
use cardgames.Settlement.Refused.{RefusesLong, cleaned, cleanup_stale_tables-refused, sweep-refused}

abbrev anna : Wallet
anna = record { id = 1; user_id = 10; real_balance = pos 500; bonus_balance = pos 0 }

abbrev shop : Store
shop = record {
  wallets = anna ∷ [];
  transactions =
      record {
        id = 100;
        wallet_id = 1;
        type = deposit;
        amount = pos 500;
        status = TransactionStatus.completed;
        description = deposit_via "Agent";
        balance_before = none;
        balance_after = none;
        reference_id = none;
        rejection_reason = none;
        processed_by_id = none;
        performed_by_id = none;
      }
      ∷ [];
  audits = [];
  tables = [];
  redis_up = true;
  alerts = [];
}

shop-IsSound : IsSound shop
unfolding find ledger_total ◌+ℤ◌
shop-IsSound = record {
  unique_wallets = (refl, tt);
  unique_rows = (refl, tt);
  balanced = (refl, tt);
}

shop-AllBelow : AllBelow 101 shop.transactions
unfolding AllBelow
shop-AllBelow = (omega arith, tt)

anna_found : find_wallet_of 10 shop ≡ some anna
unfolding find_wallet_of find
anna_found = refl

abbrev table_a : TableId
table_a = record { number = 7; text = "t7" }

abbrev table_b : TableId
table_b = record { number = 8; text = "t8" }

abbrev left_job : CashOutJob
left_job = record {
  job_id = "cashout" ∷ "10" ∷ "1000" ∷ [];
  name = "settle-cashout";
  user_id = some 10;
  amount = some (pos 80);
  table_id = some table_a;
  reference_id = some (session 7 1000);
  source = "leave";
}

abbrev bare_job : CashOutJob
bare_job = record left_job { reference_id = none }

-- The invalid job owes nothing.
owed_once : owed 10 (bare_job ∷ record bare_job { name = "other" } ∷ []) ≡ pos 80
unfolding owed ◌+ℤ◌
owed_once = refl

abbrev seat_of_anna : PlayerData
seat_of_anna = record {
  id = some 10;
  chips = pos 40;
  current_bet = pos 5;
  status = "active";
  connection = "offline";
  disconnected_at = some 100;
  sit_out_start = none;
}

abbrev seats : List Field
seats =
    record { key = "seat_1"; seat_number = 1; value = some seat_of_anna }
    ∷ record { key = "seat_2"; seat_number = 2; value = none }
    ∷ record { key = "waitlist"; seat_number = 0; value = some seat_of_anna }
    ∷ []

-- The hashes of the tables.
abbrev Hashes : Type 0
Hashes = ℕ → List Field

abbrev players_of : TableId → Hashes → List Field
players_of t r = r t.number

abbrev force_cleanup : TableId → Hashes → Option CleanupResult × Hashes
force_cleanup t r = (
  some (record { players_refunded = 1; total_refunded = 45 }),
  λ n. if t.number == n then [] else r n,
)

abbrev accepts : List String → Bool
accepts id = leb (length id) 3

refuses : RefusesLong accepts
refuses id h = ground arith

abbrev hashes : Hashes
hashes n = if n == 7 then seats else []

abbrev id_text : ℕ → String
id_text n = "u10"

abbrev at_start : TableId → SnapshotPlayer → String
at_start t p = "1000"

cleanup_stale_tables-refused_example :
    cleanup_stale_tables players_of force_cleanup id_text at_start accepts
      (table_a ∷ table_b ∷ [])
      (hashes, [])
    ≡ (cleaned force_cleanup (table_a ∷ table_b ∷ []) hashes, [])
cleanup_stale_tables-refused_example =
    cleanup_stale_tables-refused players_of force_cleanup id_text at_start accepts refuses
      (table_a ∷ table_b ∷ []) hashes []

run_jobs-credits_example :
    find_wallet_of 10 (run_jobs (bare_job ∷ bare_job ∷ []) 101 shop)
    ≡ some (credited (owed 10 (bare_job ∷ bare_job ∷ [])) anna)
run_jobs-credits_example =
    run_jobs-credits (bare_job ∷ bare_job ∷ []) 101 shop 10 anna shop-IsSound shop-AllBelow
      (unfold NoShield in (refl, (refl, tt))) anna_found

abbrev world : World Hashes
world = record {
  players_of = players_of;
  phase = λ t r. "waiting";
  last_seen = λ t n r. none;
  has_active_socket = λ t n. false;
  leave_table = λ t n user r. (some true, λ k. if t.number == k then [] else r k);
  forget = λ t n user r. r;
  id_text = id_text;
  date_now = λ t n. "1000";
  accepts = accepts;
  recorded = λ k. true;
}

abbrev room : Room Hashes
room = record { redis = hashes; queue = []; audits = []; next_hands = [] }

sweep-refused_example : (sweep world 160000 (table_a ∷ []) room).queue ≡ []
sweep-refused_example = sweep-refused world refuses 160000 (table_a ∷ []) room
