-- ===== src/BankConfig/Tests.antt =====
-- The account of a bank, replaced and restored. The tests count every text as ten units.
use cardgames.Prelude.{refl, true, false, some, none, [], ◌∷◌, ◌≡◌}
use cardgames.Store.{ok, ◌>>=◌}
use cardgames.BankConfig.Defs.{
  BankConfig, SystemConfig, Configs, manual_update, restored_from, history_item, update_bank_config,
  restore_bank_config,
}
use cardgames.Store.Table.{find}
use cardgames.BankConfig.Restore.{restore_bank_config-update_bank_config}

abbrev first_account : BankConfig
first_account = record {
  iban = "DE02120300000000202051";
  bic = some "BYLADEM1001";
  bank_name = "DKB";
  holder_name = "Card Club";
  instructions = none;
  is_active = false;
}

abbrev second_account : BankConfig
second_account = record first_account { iban = "DE02500105170137075030"; bank_name = "ING" }

abbrev first_row : SystemConfig
first_row = record { value = first_account; updated_by = "ada" }

abbrev configs : Configs
configs = record { current = some first_row; history = [] }

restore_bank_config-update_bank_config_example :
    (update_bank_config (λ t. 10) 1 second_account "ada" configs >>= λ u.
    restore_bank_config 2 1 "bob" u.1)
    ≡ ok (
      record first_account { bic = some ""; is_active = true },
      record {
        current = some (record {
          value = record first_account { bic = some ""; is_active = true };
          updated_by = "bob";
        });
        history =
            history_item 2 "bob" (restored_from 1) second_account
            ∷ history_item 1 "ada" manual_update first_account
            ∷ [];
      },
    )
unfolding find
restore_bank_config-update_bank_config_example =
    restore_bank_config-update_bank_config (λ t. 10) 1 2 second_account "ada" "bob" first_row
      configs refl refl refl refl refl refl
