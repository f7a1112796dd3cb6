-- ===== src/Db/ApiKeys.antt =====
-- internal/db/api_keys.go
pub mod Revoked
use distri_max.Prelude.{
  ℕ, Bool, true, false, not, ◌&&◌, ◌||◌, List, [], ◌∷◌, ◌++◌, Option, none, some, Text, ◌==◌, leb,
  eqb, if◌then◌else◌,
}
use distri_max.Db.Schema.{Time, ApiKey, Tables}
use distri_max.Db.Sql.{first_where, select_where, update_where, count_where, order_by}
use distri_max.Db.Store.{
  api_key_not_found, constraint_failed, Result, ok, err, M, ◌>>=◌, ◌>>◌, pure, throw, exec, query,
}
use distri_max.Db.Versions.{is_some}

unfoldable pub key_has_id : Text → ApiKey → Bool
key_has_id id k = k.id == id

-- The row of a new key, whose id is the caller's or else a fresh uuid.
abbrev pub new_key : ApiKey → Text → Time → ApiKey
new_key k uuid now = record k {
  id = if k.id == [] then uuid else k.id;
  is_revoked = false;
  last_used_at = none;
  last_used_ip = none;
  created_at = now;
}

-- The primary key and UNIQUE(key_hash) refuse a second row.
abbrev pub insert_key : ApiKey → Tables → Result (Unit {0} × Tables)
insert_key k t =
    if is_some (first_where (key_has_id k.id) t.api_keys)
      || is_some (first_where (λ j. j.key_hash == k.key_hash) t.api_keys)
    then err constraint_failed
    else ok (tt, record t { api_keys = t.api_keys ++ k ∷ [] })

unfoldable pub create_api_key : ApiKey → Text → Time → M (Unit {0})
create_api_key k uuid now = exec (insert_key (new_key k uuid now))

-- key_prefix = ? AND is_revoked = 0
unfoldable pub is_candidate : Text → ApiKey → Bool
is_candidate prefix k = (k.key_prefix == prefix) && not k.is_revoked

unfoldable pub get_api_keys_by_prefix : Text → M (List ApiKey)
get_api_keys_by_prefix prefix = query λ t. ok (select_where (is_candidate prefix) t.api_keys)

-- ORDER BY created_at DESC
unfoldable pub list_api_keys : M (List ApiKey)
list_api_keys = query λ t. ok (order_by (λ k j. leb j.created_at k.created_at) t.api_keys)

unfoldable pub update_api_key_usage : Text → Text → Time → M (Unit {0})
update_api_key_usage id ip now = exec λ t. ok (
  tt,
  record t {
    api_keys =
        update_where (key_has_id id)
          (λ k. record k { last_used_at = some now; last_used_ip = some ip }) t.api_keys;
  },
)

abbrev pub revoked : ApiKey → ApiKey
revoked k = record k { is_revoked = true }

-- The statement's result is RowsAffected.
abbrev pub revoke_rows : Text → Tables → Result (ℕ × Tables)
revoke_rows id t = ok (
  count_where (key_has_id id) t.api_keys,
  record t { api_keys = update_where (key_has_id id) revoked t.api_keys },
)

abbrev pub affected : ℕ → M (Unit {0})
affected rows = if eqb rows 0 then throw api_key_not_found else pure tt

unfoldable pub revoke_api_key : Text → M (Unit {0})
revoke_api_key id = do rows ← exec (revoke_rows id); affected rows
