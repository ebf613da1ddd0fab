-- ===== src/BankConfig/Restore.antt =====
-- What a restoration brings back.
use cardgames.Prelude.{ℕ, ◌≡◌, refl, true, false, some, none, List, ◌∷◌, ◌==◌, ==_refl, ◌∙◌}
use Prim.Native.String.{String}
use text.Mathlib.Text.{◌==◌ as same_text}
use cardgames.Store.{ok, ◌>>=◌}
use cardgames.Store.Table.{find}
use cardgames.BankConfig.Defs.{
  BankConfig, SystemConfig, Configs, Note, HistoryItem, create_item, restored_dto, manual_update,
  restored_from, has_item, or_undefined, history_item, archive, replace, is_valid,
  update_bank_config, restore_bank_config,
}

-- A row with a new id.
created :
    (item : HistoryItem) (items : List HistoryItem)
    → find (has_item item.id) items ≡ none
    → create_item item items ≡ ok (item ∷ items)
unfolding create_item
created item items fresh = rw (create_item, fresh) refl

-- The replacement of a known configuration.
replaced :
    (id : ℕ) (admin_name : String) (note : Note) (value : BankConfig) (row : SystemConfig)
    (s : Configs)
    → s.current ≡ some row
    → find (has_item id) s.history ≡ none
    → replace id admin_name note value s
      ≡ ok (
        value,
        record {
          current = some (record { value = value; updated_by = admin_name });
          history = history_item id admin_name note row.value ∷ s.history;
        },
      )
unfolding replace archive
replaced id admin_name note value row s known fresh =
    rw (archive, known, created (history_item id admin_name note row.value) s.history fresh) refl

-- Restoring what an update replaced undoes the update, but for two fields: where the update is
-- valid, the replaced configuration has a bank's name, and the two ids are new, the calls succeed,
-- and the current configuration is the one before the update, by the second administrator, with an
-- empty BIC and active, and with blank instructions left out; the history has grown by the replaced
-- configuration and by the updated one.
pub restore_bank_config-update_bank_config :
    (units : String → ℕ) (id next_id : ℕ) (dto : BankConfig) (admin_name restorer : String)
    (row : SystemConfig) (s : Configs)
    → s.current ≡ some row
    → find (has_item id) s.history ≡ none
    → find (has_item next_id) s.history ≡ none
    → (id == next_id) ≡ false
    → is_valid units dto ≡ true
    → same_text row.value.bank_name "" ≡ false
    → (update_bank_config units id dto admin_name s >>= λ u.
        restore_bank_config next_id id restorer u.1)
      ≡ ok (
          let value : BankConfig = record row.value {
            bic = some "";
            instructions = or_undefined row.value.instructions;
            is_active = true;
          } in
          (
            value,
            record {
              current = some (record { value = value; updated_by = restorer });
              history =
                  history_item next_id restorer (restored_from id) dto
                  ∷ history_item id admin_name manual_update row.value
                  ∷ s.history;
            },
          ))
unfolding update_bank_config restore_bank_config find
restore_bank_config-update_bank_config units id next_id dto admin_name restorer row s known fresh
      next_fresh differ valid named =
    let item : HistoryItem = history_item id admin_name manual_update row.value in
    let updated : Configs = record {
      current = some (record { value = dto; updated_by = admin_name });
      history = item ∷ s.history;
    } in
    let brought_back : restored_dto item ≡ record row.value {
      bic = some "";
      instructions = or_undefined row.value.instructions;
      is_active = true;
    } =
      rw named refl in
    let next_new : find (has_item next_id) (item ∷ s.history) ≡ none = rw differ next_fresh in
    rw (valid, replaced id admin_name manual_update dto row s known fresh, ==_refl id)
      (replaced next_id restorer (restored_from id) (restored_dto item)
          (record { value = dto; updated_by = admin_name }) updated refl next_new
        ∙ rw brought_back refl)
