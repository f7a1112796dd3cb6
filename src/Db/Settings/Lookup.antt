-- ===== src/Db/Settings/Lookup.antt =====
-- Settings behave as a map from keys to values.
use distri_max.Prelude.{
  Bool, ◌≡◌, ap, ◌∙◌, false, Text, ◌==◌, ==_iff, Bool-cases, inl, inr, arith, if◌then◌else◌, List,
  [], ◌∷◌, ◌++◌,
}
use distri_max.Db.Schema.{Time, Setting, Tables}
use distri_max.Db.Sql.{first_where, update_where, first_where-update}
use distri_max.Db.Store.{ok, healthy, exec, query}
use distri_max.Db.Versions.{is_some}
use distri_max.Db.Settings.{
  has_setting_key, value_of, overwritten, upsert_setting, get_setting, set_setting,
}

abbrev table_after : Setting → List Setting → List Setting
table_after s xs =
    if is_some (first_where (has_setting_key s.key) xs)
    then update_where (has_setting_key s.key) (overwritten s) xs
    else xs ++ s ∷ []

other_setting :
    (s : Setting) (key : Text) (xs : List Setting)
    → (s.key == key) ≡ false
    → first_where (has_setting_key key) (update_where (has_setting_key s.key) (overwritten s) xs)
      ≡ first_where (has_setting_key key) xs
unfolding has_setting_key
other_setting s key xs ne =
    first_where-update _ (has_setting_key s.key) (overwritten s) xs
      (λ x h. ground (arith, ==_iff s.key key, ==_iff x.key s.key, ==_iff x.key key))
      (λ x h. ground (arith, ==_iff s.key key, ==_iff x.key s.key, ==_iff x.key key))

value_of-table_after :
    (s : Setting) (key : Text) (xs : List Setting)
    → value_of (first_where (has_setting_key key) (table_after s xs)) ≡ (
        if s.key == key
        then (s.value, s.is_encrypted)
        else value_of (first_where (has_setting_key key) xs))
unfolding first_where update_where has_setting_key
value_of-table_after s key [] = ground arith
value_of-table_after s key (x ∷ xs) = ground (
  arith,
  ==_iff s.key key,
  ==_iff x.key s.key,
  ==_iff x.key key,
  other_setting s key xs,
  value_of-table_after s key xs,
)

settings-upsert :
    (s : Setting) (t : Tables) (key : Text)
    → value_of (first_where (has_setting_key key) (upsert_setting s t).settings)
      ≡ value_of (first_where (has_setting_key key) (table_after s t.settings))
settings-upsert s t key =
    elim (Bool-cases (is_some (first_where (has_setting_key s.key) t.settings))) [
      | inl old ↦ rw old
      | inr new ↦ rw new
    ]

-- A setting that was stored is read back, with its encryption mark; all others are as they
-- were; if the driver refuses nothing.
pub get-set :
    (key other val updated_by : Text) (enc : Bool) (now : Time) (t : Tables)
    → (get_setting other (set_setting key val enc updated_by now (healthy t)).1).0
      ≡ ok (
          if key == other
          then (val, enc)
          else value_of (first_where (has_setting_key other) t.settings))
unfolding get_setting set_setting exec query
get-set key other val updated_by enc now t =
    let s : Setting = record {
      key = key;
      value = val;
      is_encrypted = enc;
      updated_at = now;
      updated_by = updated_by;
    } in
    ap ok (settings-upsert s t other ∙ value_of-table_after s other t.settings)
