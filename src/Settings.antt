-- ===== src/Settings.antt =====
-- src/lib/db/settings.ts: the key-value store of the configuration, without the times of its writes.
pub mod Laws
use headtower.Prelude.{Option, none, some, List, [], ◌∷◌, Text, eq_text, if◌then◌else◌, not, keep}

-- A row of `app_settings`
pub record Setting : Type 0 where
  pub key : Text
  pub value : Text

-- `readSetting`, and an entry of `readAllSettings`. A database that cannot be opened reads as no rows.
unfoldable pub read_setting : Text → List Setting → Option Text
read_setting key [] = none
read_setting key (row ∷ rows) =
    if eq_text key row.key then some row.value else read_setting key rows

-- `writeSetting`
unfoldable pub write_setting : Text → Text → List Setting → List Setting
write_setting key value [] = record { key = key; value = value } ∷ []
write_setting key value (row ∷ rows) =
    if eq_text key row.key
    then record row { value = value } ∷ rows
    else row ∷ write_setting key value rows

-- `deleteSetting`
unfoldable pub delete_setting : Text → List Setting → List Setting
delete_setting key rows = keep (λ row. not (eq_text key row.key)) rows
