-- ===== src/Settings/Laws.antt =====
-- src/lib/db/settings.ts: what is read after a write or a deletion.
use headtower.Prelude.{
  ◌≡◌, refl, arith, none, some, List, [], ◌∷◌, Text, eq_text, eq_text_iff, if◌then◌else◌,
}
use headtower.Settings.{Setting, read_setting, write_setting, delete_setting}

pub read-write :
    (k key value : Text) (rows : List Setting)
    → read_setting k (write_setting key value rows)
      ≡ (if eq_text k key then some value else read_setting k rows)
unfolding read_setting write_setting
read-write k key value [] = refl
read-write k key value (row ∷ rows) = ground (
  arith,
  eq_text_iff k key,
  eq_text_iff key row.key,
  eq_text_iff k row.key,
  read-write k key value rows,
)

pub read-delete :
    (k key : Text) (rows : List Setting)
    → read_setting k (delete_setting key rows)
      ≡ (if eq_text k key then none else read_setting k rows)
unfolding read_setting delete_setting
read-delete k key [] = ground arith
read-delete k key (row ∷ rows) = ground (
  arith,
  eq_text_iff k key,
  eq_text_iff key row.key,
  eq_text_iff k row.key,
  read-delete k key rows,
)
