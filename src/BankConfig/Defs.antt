-- ===== src/BankConfig/Defs.antt =====
-- `getBankConfig`, `updateBankConfig` and `restoreBankConfig`. The new ids of the history are the
-- caller's, and a creation under an id in use is refused. The length of a text, in UTF-16 code units,
-- is a parameter.
use cardgames.Prelude.{
  ℕ, Bool, true, false, not, ◌&&◌, Option, none, some, List, ◌∷◌, leb, ◌==◌, if◌then◌else◌,
}
use Prim.Native.String.{String}
use text.Mathlib.Text.{◌==◌ as same_text}
use cardgames.Store.{
  Result, ok, err, ◌>>=◌, ◌>>◌, throw_if, or_throw, invalid_bank_config, history_item_not_found,
  unique_violation,
}
use cardgames.Store.Table.{find}

pub record BankConfig : Type 0 where
  pub iban : String
  pub bic : Option String
  pub bank_name : String
  pub holder_name : String
  pub instructions : Option String
  pub is_active : Bool

pub data Note : Type 0 where
  manual_update : Note
  restored_from : ℕ → Note

pub record HistoryItem : Type 0 where
  pub id : ℕ
  pub admin_name : String
  pub iban : String
  pub bank_name : String
  pub holder_name : String
  pub instructions : Option String
  pub note : Note

-- The row of the key `BANK_CONFIG`: its value, and who wrote it.
pub record SystemConfig : Type 0 where
  pub value : BankConfig
  pub updated_by : String

pub record Configs : Type 0 where
  pub current : Option SystemConfig
  pub history : List HistoryItem

abbrev pub has_item : ℕ → HistoryItem → Bool
has_item id h = h.id == id

unfoldable pub get_bank_config : Configs → BankConfig
get_bank_config s = elim (s.current) [
  | none ↦ record {
    iban = "";
    bic = some "";
    bank_name = "";
    holder_name = "";
    instructions = some "";
    is_active = false;
  }
  | some row ↦ row.value
]

-- `text || otherwise`
abbrev pub or_else : String → String → String
or_else text otherwise = if same_text text "" then otherwise else text

-- `text || undefined`
abbrev pub or_undefined : Option String → Option String
or_undefined none = none
or_undefined (some text) = if same_text text "" then none else some text

abbrev pub history_item : ℕ → String → Note → BankConfig → HistoryItem
history_item id admin_name note current_data = record {
  id = id;
  admin_name = admin_name;
  iban = current_data.iban;
  bank_name = or_else current_data.bank_name "Unknown Bank";
  holder_name = current_data.holder_name;
  instructions = current_data.instructions;
  note = note;
}

-- `bankConfigHistory.create`
unfoldable pub create_item : HistoryItem → List HistoryItem → Result (List HistoryItem)
create_item item items = elim (find (has_item item.id) items) [
  | some old ↦ err unique_violation
  | none ↦ ok (item ∷ items)
]

-- The current configuration goes to the history.
unfoldable pub archive : ℕ → String → Note → Configs → Result (List HistoryItem)
unfolding create_item
archive id admin_name note s = elim (s.current) [
  | none ↦ ok (s.history)
  | some row ↦ create_item (history_item id admin_name note row.value) s.history
]

-- The transaction of an update and of a restoration.
unfoldable pub replace : ℕ → String → Note → BankConfig → Configs → Result (BankConfig × Configs)
unfolding archive
replace id admin_name note value s = archive id admin_name note s >>= λ items. ok (
  value,
  record { current = some (record { value = value; updated_by = admin_name }); history = items },
)

module _ (units : String → ℕ) where
  abbrev pub is_valid : BankConfig → Bool
  is_valid dto =
      leb 10 (units dto.iban)
      && leb (units dto.iban) 34
      && leb 1 (units dto.bank_name)
      && leb 1 (units dto.holder_name)

  unfoldable pub update_bank_config :
      ℕ → BankConfig → String → Configs → Result (BankConfig × Configs)
  unfolding replace
  update_bank_config id dto admin_name s =
      throw_if (not (is_valid dto)) invalid_bank_config >> replace id admin_name manual_update dto s

abbrev pub restored_dto : HistoryItem → BankConfig
restored_dto h = record {
  iban = h.iban;
  bank_name = h.bank_name;
  holder_name = h.holder_name;
  instructions = or_undefined h.instructions;
  bic = some "";
  is_active = true;
}

unfoldable pub restore_bank_config : ℕ → ℕ → String → Configs → Result (BankConfig × Configs)
unfolding replace
restore_bank_config id history_id admin_name s =
    or_throw (find (has_item history_id) s.history) history_item_not_found >>= λ h.
    replace id admin_name (restored_from history_id) (restored_dto h) s
