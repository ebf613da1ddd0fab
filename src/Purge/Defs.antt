-- ===== src/Purge/Defs.antt =====
-- `reapOldHandHistory`. A batch takes the first rows that qualify; the loop runs on fuel. The pause
-- between the batches and the texts of the messages are left out.
use cardgames.Prelude.{
  ℕ, zero, suc, ◌+◌, ◌-◌, ◌*◌, Bool, true, false, ◌&&◌, ◌||◌, Option, none, some, List, [], ◌∷◌,
  ltb,
}
use Prim.Native.String.{String}

-- A row of the hands; the replay data are none where the columns are null.
pub record StoredHand : Type 0 where
  pub id : ℕ
  pub table_id : ℕ
  pub end_time : ℕ
  pub community_cards : Option (List String)
  pub pot : ℕ
  pub rake : ℕ
  pub action_log : Option (List String)

abbrev pub is_not_null {ℓ} : {A : Type ℓ} → Option A → Bool
is_not_null none = false
is_not_null (some a) = true

-- The condition of the inner SELECT.
abbrev pub is_heavy : ℕ → StoredHand → Bool
is_heavy cutoff h =
    ltb h.end_time cutoff && (is_not_null h.action_log || is_not_null h.community_cards)

abbrev pub strip : StoredHand → StoredHand
strip h = record h { community_cards = none; action_log = none }

-- The UPDATE: how many rows it changes, and the table afterwards.
unfoldable pub strip_batch : ℕ → ℕ → List StoredHand → ℕ × List StoredHand
strip_batch cutoff zero hs = (0, hs)
strip_batch cutoff (suc limit) [] = (0, [])
strip_batch cutoff (suc limit) (h ∷ hs) = elim (is_heavy cutoff h) [
  | true ↦ let rest = strip_batch cutoff limit hs in (suc rest.0, strip h ∷ rest.1)
  | false ↦ let rest = strip_batch cutoff (suc limit) hs in (rest.0, h ∷ rest.1)
]

abbrev pub batch_size : ℕ
batch_size = 1000

pub record Reaped : Type 0 where
  pub hands : List StoredHand
  pub total_stripped : ℕ
  pub batch_count : ℕ

-- The `while (true)`; none where the fuel is used up.
unfoldable pub reap_batches : ℕ → ℕ → List StoredHand → ℕ → ℕ → Option Reaped
unfolding strip_batch
reap_batches zero cutoff hs total batches = none
reap_batches (suc fuel) cutoff hs total batches =
    let batch = strip_batch cutoff batch_size hs in
    elim batch.0 [
      | zero ↦ some (record { hands = batch.1; total_stripped = total; batch_count = batches })
      | suc k ↦ reap_batches fuel cutoff batch.1 (total + suc k) (suc batches)
    ]

abbrev pub retention_days : ℕ
retention_days = 90

abbrev pub cutoff_date : ℕ → ℕ
cutoff_date now = now - retention_days * 24 * 60 * 60 * 1000

-- The alert to the administrators has the number of rows, and is sent if there are any.
abbrev pub reap_alert : Reaped → Option ℕ
reap_alert r = elim r.total_stripped [ zero ↦ none | suc k ↦ some (suc k) ]

unfoldable pub reap_old_hand_history : ℕ → ℕ → List StoredHand → Option (Reaped × Option ℕ)
reap_old_hand_history fuel now hs = elim (reap_batches fuel (cutoff_date now) hs 0 0) [
  | none ↦ none
  | some r ↦ some (r, reap_alert r)
]
