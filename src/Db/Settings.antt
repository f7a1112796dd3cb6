-- ===== src/Db/Settings.antt =====
-- internal/db/settings.go
pub mod Lookup
use distri_max.Prelude.{
  Bool, false, List, [], ◌∷◌, ◌++◌, Option, none, some, Text, ◌==◌, if◌then◌else◌,
}
use distri_max.Db.Schema.{Time, Setting, Tables}
use distri_max.Db.Sql.{first_where, update_where, order_by, text_le}
use distri_max.Db.Store.{Result, ok, M, exec, query}
use distri_max.Db.Versions.{is_some}

unfoldable pub has_setting_key : Text → Setting → Bool
has_setting_key key s = s.key == key

-- A missing key reads as the empty text, and is no error.
abbrev pub value_of : Option Setting → Text × Bool
value_of none = ([], false)
value_of (some s) = (s.value, s.is_encrypted)

abbrev pub read_setting : Text → Tables → Result (Text × Bool)
read_setting key t = ok (value_of (first_where (has_setting_key key) t.settings))

unfoldable pub get_setting : Text → M (Text × Bool)
get_setting key = query (read_setting key)

abbrev pub overwritten : Setting → Setting → Setting
overwritten new s = record s {
  value = new.value;
  is_encrypted = new.is_encrypted;
  updated_at = new.updated_at;
  updated_by = new.updated_by;
}

-- INSERT ... ON CONFLICT(key) DO UPDATE
abbrev pub upsert_setting : Setting → Tables → Tables
upsert_setting s t =
    if is_some (first_where (has_setting_key s.key) t.settings)
    then record t { settings = update_where (has_setting_key s.key) (overwritten s) t.settings }
    else record t { settings = t.settings ++ s ∷ [] }

unfoldable pub set_setting : Text → Text → Bool → Text → Time → M (Unit {0})
set_setting key val is_encrypted updated_by now = exec λ t. ok (
  tt,
  upsert_setting
      (record {
        key = key;
        value = val;
        is_encrypted = is_encrypted;
        updated_at = now;
        updated_by = updated_by;
      })
      t,
)

unfoldable pub list_settings : M (List Setting)
list_settings = query λ t. ok (order_by (λ s r. text_le s.key r.key) t.settings)
